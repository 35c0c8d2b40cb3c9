-- ===== src/Hash.antt =====
-- The blocks that the sparse hash reads: crates/core/src/hash.rs. The digest itself is that of the
-- library blake3, and is not modelled.
pub mod Blocks
use check_trung_video.Base.{
  ℕ, zero, suc, ◌+◌, ◌-◌, ◌*◌, ◌/◌, ◌^◌, ltb, leb, ◌==◌, String, List, [], ◌∷◌, ◌++◌, Bool, true,
  false, Result, ok, err, if◌then◌else◌,
}

-- `chunks` and `chunk_len` can be built by `new` only.
pub record HashParams : Type 0 where
  pub chunks : ℕ
  pub chunk_len : ℕ

abbrev pub new : ℕ → ℕ → Result String HashParams
new chunks chunk_len =
    if ltb chunks 2
    then err "chunks phải >= 2 để lấy được cả đầu lẫn cuối"
    else if chunk_len == 0
    then err "chunk_len phải > 0"
    else ok (record { chunks = chunks; chunk_len = chunk_len })

pub record Doan : Type 0 where
  pub offset : ℕ
  pub len : ℕ

abbrev pub u64_max : ℕ
u64_max = 2 ^ 64 - 1

-- `a.saturating_mul(b)`
unfoldable pub saturating_mul : ℕ → ℕ → ℕ
saturating_mul a b = if leb (a * b) u64_max then a * b else u64_max

-- `off & !CAN_LE`: the low twelve bits are cleared.
unfoldable pub can_le : ℕ → ℕ
can_le off = off / 4096 * 4096

unfoldable pub offset_at : ℕ → ℕ → ℕ → ℕ
unfolding saturating_mul can_le
offset_at n span i = can_le (saturating_mul i span / (n - 1))

-- The blocks from number `i`, as many as the fourth argument says.
unfoldable pub blocks_from : ℕ → ℕ → ℕ → ℕ → ℕ → List Doan
unfolding offset_at
blocks_from n span l i zero = []
blocks_from n span l i (suc k) =
    record { offset = offset_at n span i; len = l } ∷ blocks_from n span l (i + 1) k

-- `out.dedup_by_key(|d| d.offset)`, after a block at `off`
unfoldable pub dedup_after : ℕ → List Doan → List Doan
dedup_after off [] = []
dedup_after off (d ∷ ds) = elim (d.offset == off) [
  | true ↦ dedup_after off ds
  | false ↦ d ∷ dedup_after d.offset ds
]

abbrev pub dedup_by_offset : List Doan → List Doan
dedup_by_offset [] = []
dedup_by_offset (d ∷ ds) = d ∷ dedup_after d.offset ds

unfoldable pub cac_doan : HashParams → ℕ → List Doan
unfolding saturating_mul blocks_from dedup_after
cac_doan p size =
    if leb size (saturating_mul p.chunks p.chunk_len)
    then record { offset = 0; len = size } ∷ []
    else dedup_by_offset (
        blocks_from p.chunks (size - p.chunk_len) p.chunk_len 0 (p.chunks - 1)
        ++ (record { offset = size - p.chunk_len; len = p.chunk_len } ∷ []))
