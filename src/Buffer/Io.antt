-- ===== src/Buffer/Io.antt =====
-- readFd and writeFd against what the kernel reports.
use mini_net.Prelude.{
  ℕ, ◌+◌, ◌≤◌, ◌≡◌, refl, sym, ap, ◌∙◌, ◌++◌, append_assoc, append-nil, [], arith, Bytes, length,
  take, drop, splice, slice, length-splice, length-take, take-append-drop, take_all, Bool-cases,
  inl, inr, leb, leb→le, leb→lt, ltb,
}
use mini_net.Buffer.{
  Buffer, ReadOutcome, delivered, read_failed, WriteOutcome, taken, write_failed, read_fd, write_fd,
  writable_bytes,
}
use mini_net.Buffer.Slices.{slice-splice}
use mini_net.Buffer.View.{contents, IsValid}
use mini_net.Buffer.Space.{append-Refines}
use mini_net.Buffer.Refine.{retrieve-Refines}

abbrev pub arrived : ReadOutcome → Bytes
arrived (delivered bytes) = bytes
arrived (read_failed errno) = []

-- The vector's tail takes what fits there.
fill_lem :
    (b : Buffer) (bytes : Bytes)
    → IsValid b
    → length bytes ≤ writable_bytes b
    → slice (splice b.buf b.write_idx bytes) b.read_idx (b.write_idx + length bytes)
      ≡ contents b ++ bytes
fill_lem b bytes v h =
    slice-splice b.buf b.read_idx b.write_idx bytes v.ordered (omega (arith, v.within))

-- On a valid buffer, whatever number of bytes arrives, readFd puts them all behind the unread ones, in order; a failed
-- read changes nothing.
pub read_fd-Refines :
    (b : Buffer) (r : ReadOutcome)
    → IsValid b
    → IsValid (read_fd b r) × (contents (read_fd b r) ≡ contents b ++ arrived r)
unfolding read_fd
read_fd-Refines b (read_failed errno) v = (v, sym (append-nil (contents b)))
read_fd-Refines b (delivered bytes) v = elim (Bool-cases (leb (length bytes) (writable_bytes b))) [
  | inl small ↦
      let h = leb→le _ _ small in
      let e : take (writable_bytes b) bytes ≡ bytes = take_all (writable_bytes b) bytes h in
      rw (small, e)
        (
          record {
            ordered = omega (arith, v.ordered);
            within = omega (arith, v.within, length-splice b.buf b.write_idx bytes);
          },
          fill_lem b bytes v h,
        )
  | inr large ↦
      let front = take (writable_bytes b) bytes in
      let back = drop (writable_bytes b) bytes in
      let n : length front ≡ writable_bytes b =
        omega (arith, length-take (writable_bytes b) bytes, leb→lt _ _ large) in
      let filled = splice b.buf b.write_idx front in
      let m : length filled ≡ length b.buf = length-splice b.buf b.write_idx front in
      let full : length filled ≡ b.write_idx + length front = omega (arith, v.within) in
      let (valid, tail) =
        append-Refines (record b { buf = filled; write_idx = length filled }) back
          (record { ordered = omega (arith, v.ordered, v.within); within = omega arith }) in
      let whole : slice filled b.read_idx (length filled) ≡ contents b ++ front =
        rw full (fill_lem b front v (omega arith)) in
      rw large (
        valid,
        tail
            ∙ ap (λ c. c ++ back) whole
            ∙ append_assoc (contents b) front back
            ∙ ap (λ c. contents b ++ c) (take-append-drop (writable_bytes b) bytes),
      )
]

abbrev pub accepted : WriteOutcome → ℕ
accepted (taken n) = n
accepted (write_failed errno) = 0

-- On a valid buffer, writeFd drops exactly the bytes that the kernel took; a failed write drops none.
write_fd-Refines :
    (b : Buffer) (r : WriteOutcome)
    → IsValid b
    → IsValid (write_fd b r) × (contents (write_fd b r) ≡ drop (accepted r) (contents b))
unfolding write_fd
write_fd-Refines b (write_failed errno) v = (v, refl)
write_fd-Refines b (taken n) v = elim (Bool-cases (ltb 0 n)) [
  | inl some ↦ rw some (retrieve-Refines b n v)
  | inr idle ↦ let e : n ≡ 0 = ground arith in rw (idle, e) (v, refl)
]
