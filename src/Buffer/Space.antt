-- ===== src/Buffer/Space.antt =====
-- makeSpace, ensureWritable and append: the room is made without losing an unread byte.
use mini_net.Prelude.{
  ℕ, ◌+◌, ◌-◌, ◌≤◌, ◌<◌, ◌≡◌, refl, ap, ◌∙◌, ◌++◌, arith, Bytes, length, take, splice, slice,
  replicate, length-append, length-splice, length-replicate, take_all, Bool-cases, inl, inr, leb,
  ltb, ltb→le, leb→le,
}
use mini_net.Buffer.{
  Buffer, resize, enlarge, make_space, ensure_writable, append, readable_bytes, writable_bytes,
}
use mini_net.Buffer.Slices.{slice-splice, slice-splice_front, slice-append}
use mini_net.Buffer.View.{contents, IsValid, length-contents}

resize_grow :
    (xs : Bytes) (n : ℕ)
    → length xs ≤ n
    → (length (resize xs n) ≡ n)
      × ((i j : ℕ) → j ≤ length xs → slice (resize xs n) i j ≡ slice xs i j)
unfolding resize
resize_grow xs n h = (
  omega (
    arith,
    length-append (take n xs) (replicate (n - length xs) 0),
    ap length (take_all n xs h),
    length-replicate {A = ℕ} (n - length xs) 0,
  ),
  λ i j k. rw (take_all n xs h) (slice-append xs _ i j k),
)

-- The storage keeps the unread bytes, never shrinks, and is long enough.
enlarge_lem :
    (b : Buffer) (n : ℕ)
    → IsValid b
    → writable_bytes b < n
    → (readable_bytes b + n ≤ length (enlarge b n))
      × (slice (enlarge b n) b.read_idx b.write_idx ≡ contents b)
unfolding enlarge
enlarge_lem b n v h = elim (Bool-cases (ltb (b.read_idx + writable_bytes b) (n + 1))) [
  | inl short ↦
      rw short
        let (e, same) = resize_grow b.buf (b.write_idx + n) (omega (arith, v.within)) in
          (omega (arith, v.ordered, e), same b.read_idx b.write_idx v.within)
  | inr enough ↦ rw enough (omega (arith, v.ordered, v.within, ltb→le _ _ enough), refl)
]

pub record Roomy (b b' : Buffer) (n : ℕ) : Type 0 where
  pub valid : IsValid b'
  pub room : n ≤ writable_bytes b'
  pub same : contents b' ≡ contents b

make_space_lem :
    (b : Buffer) (n : ℕ) → IsValid b → writable_bytes b < n → Roomy b (make_space b n) n
unfolding make_space
make_space_lem b n v h =
    let buf = enlarge b n in
    let (room, same) = enlarge_lem b n v h in
    let len : length (slice buf b.read_idx b.write_idx) ≡ readable_bytes b =
      ap length same ∙ length-contents b v in
    let kept : length (splice buf 0 (slice buf b.read_idx b.write_idx)) ≡ length buf =
      length-splice buf 0 (slice buf b.read_idx b.write_idx) in
    record {
      valid = record { ordered = omega arith; within = omega arith };
      room = omega arith;
      same = slice-splice_front buf _ (readable_bytes b) len (omega arith) ∙ same;
    }

pub ensure_writable_lem : (b : Buffer) (n : ℕ) → IsValid b → Roomy b (ensure_writable b n) n
unfolding ensure_writable
ensure_writable_lem b n v = elim (Bool-cases (leb n (writable_bytes b))) [
  | inl roomy ↦ rw roomy (record { valid = v; room = leb→le _ _ roomy; same = refl })
  | inr tight ↦ rw tight (make_space_lem b n v (ground arith))
]

-- On a valid buffer, appending puts the bytes behind the unread ones, however little room there was.
pub append-Refines :
    (b : Buffer) (bytes : Bytes)
    → IsValid b
    → IsValid (append b bytes) × (contents (append b bytes) ≡ contents b ++ bytes)
unfolding append
append-Refines b bytes v =
    let r = ensure_writable_lem b (length bytes) v in
    let roomy = ensure_writable b (length bytes) in
    (
      record {
        ordered = omega arith;
        within = omega (arith, length-splice roomy.buf roomy.write_idx bytes);
      },
      slice-splice roomy.buf roomy.read_idx roomy.write_idx bytes (omega arith) (omega arith)
          ∙ ap (λ c. c ++ bytes) r.same,
    )
