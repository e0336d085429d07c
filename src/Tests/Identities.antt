-- ===== src/Tests/Identities.antt =====
-- Two identities with one id, hashed by a stand-in that keeps the first bytes of its input.
use go_mutants.Prelude.{◌≡◌, ◌⊎◌, refl, Bytes, [], codes, take}
use go_mutants.Mutation.Identity.{Identity, Checked, ok, err, identity_id}
use go_mutants.Mutation.Identity.Injective.{Collide, identity_id-Distinguishes}

abbrev digest : Bytes
digest = codes "0123456789abcdef0123456789abcdef0123456789abcdef0123456789abcdef"

abbrev somewhere : Identity
somewhere = record {
  path = codes "internal/glob/glob.go";
  rule_name = codes "eq-to-neq";
  rule_version = 1;
  span = record { start_byte = 120; end_byte = 122 };
  source_digest = digest;
  original_digest = digest;
  replacement_digest = digest;
  module_path = codes "example.com/m";
}

-- The same place with the next rule.
abbrev elsewhere : Identity
elsewhere = record somewhere { rule_name = codes "neq-to-eq" }

abbrev beginning : Bytes → Bytes
beginning s = take 4 s

abbrev got : Checked Bytes → Bytes
got (ok h) = h
got (err e) = []

abbrev its_id : Bytes
its_id = got (identity_id beginning somewhere)

id_somewhere : identity_id beginning somewhere ≡ ok its_id
unfolding identity_id
id_somewhere = refl

id_elsewhere : identity_id beginning elsewhere ≡ ok its_id
unfolding identity_id
id_elsewhere = refl

identity_id-Distinguishes_example : (somewhere ≡ elsewhere) ⊎ Collide beginning somewhere elsewhere
identity_id-Distinguishes_example =
    identity_id-Distinguishes beginning somewhere elsewhere its_id id_somewhere id_elsewhere
