-- ===== src/Pipeline/Errno.antt =====
-- The policy for an error of the deduper: crates/core/src/pipeline/errno.rs.
use check_trung_video.Base.{List, [], ◌∷◌, ℕ, Bool, true, false, any, if◌then◌else◌}
use check_trung_video.Base.Int
use check_trung_video.Base.Int.{ℤ, pos}
use check_trung_video.Model.SkipReason.{SkipReason, unsupported}
use check_trung_video.Pipeline.Ctx.{
  DedupeError, errno, no_progress, busy, fingerprint_changed, stopped, io, repo,
}

pub data ChinhSach : Type 0 where
  thu_lai_ngay backoff backoff_va_canh_bao park_domain : ChinhSach
  cap_khong_duoc : SkipReason → ChinhSach
  fingerprint_doi dung that_bai : ChinhSach

-- Whether the error goes to the ledger.
abbrev pub ghi_event : ChinhSach → Bool
ghi_event dung = false
ghi_event thu_lai_ngay = false
ghi_event _ = true

-- Whether the error counts as an attempt.
abbrev pub tang_attempts : ChinhSach → Bool
tang_attempts backoff = true
tang_attempts backoff_va_canh_bao = true
tang_attempts fingerprint_doi = true
tang_attempts _ = false

abbrev is_code : ℤ → List ℕ → Bool
is_code n codes = any (λ c. Int.eq n (pos c)) codes

-- The codes of the source by number: EINTR 4; EOPNOTSUPP 95, ENOTTY 25; EXDEV 18, EINVAL 22,
-- EROFS 30, ETXTBSY 26; EPERM 1, EACCES 13; ENOSPC 28, EAGAIN 11, EBUSY 16, ENOMEM 12, EIO 5;
-- ENOENT 2, ESTALE 116; EBADF 9, EISDIR 21.
unfoldable pub tu_errno : ℤ → ChinhSach
tu_errno n =
    if is_code n (4 ∷ [])
    then thu_lai_ngay
    else if is_code n (95 ∷ 25 ∷ [])
    then park_domain
    else if is_code n (18 ∷ 22 ∷ 30 ∷ 26 ∷ [])
    then cap_khong_duoc unsupported
    else if is_code n (1 ∷ 13 ∷ [])
    then backoff_va_canh_bao
    else if is_code n (28 ∷ 11 ∷ 16 ∷ 12 ∷ 5 ∷ [])
    then backoff
    else if is_code n (2 ∷ 116 ∷ [])
    then cap_khong_duoc unsupported
    else if is_code n (9 ∷ 21 ∷ [])
    then that_bai
    else backoff

unfoldable pub chinh_sach : DedupeError → ChinhSach
unfolding tu_errno
chinh_sach stopped = dung
chinh_sach fingerprint_changed = fingerprint_doi
chinh_sach busy = backoff
chinh_sach no_progress = that_bai
chinh_sach (errno n) = tu_errno n
chinh_sach (io e) = backoff
chinh_sach (repo e) = backoff
