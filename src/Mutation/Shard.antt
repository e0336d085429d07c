-- ===== src/Mutation/Shard.antt =====
-- internal/mutation/shard.go: the shard that a mutant belongs to. SHA-256 is a parameter.
use go_mutants.Prelude.{
  ℕ, ◌+◌, ◌*◌, ◌%◌, ◌≤◌, [], ◌∷◌, Bytes, codes, ltb, take, if◌then◌else◌, arith,
}

abbrev pub shard_assignment : Bytes
shard_assignment = codes "id-hash-v1"

-- `binary.BigEndian.Uint64`, after the value of the bytes before.
unfoldable pub big_endian : ℕ → Bytes → ℕ
big_endian v [] = v
big_endian v (c ∷ s) = big_endian (v * 256 + c) s

module _ (sha256 : Bytes → Bytes) where
  unfoldable pub shard_index : Bytes → ℕ → ℕ
  shard_index id total = if ltb total 1 then 0 else big_endian 0 (take 8 (sha256 id)) % total + 1

  -- A run that is split has a shard for each mutant.
  pub shard_index_bounds :
      (id : Bytes) (total : ℕ)
      → 1 ≤ total
      → (1 ≤ shard_index id total) × (shard_index id total ≤ total)
  unfolding shard_index
  shard_index_bounds id total h = grind arith
