-- ===== src/Buffer/Refine.antt =====
-- The operations of Buffer.cc that take bytes out, seen as operations on the unread bytes.
use mini_net.Prelude.{
  ℕ, ◌+◌, ◌-◌, ◌≤◌, ◌≡◌, refl, sym, ◌∙◌, arith, Bytes, length, take, drop, splice, replicate,
  length-splice, length-replicate, take_all, drop_all, Bool-cases, inl, inr, leb, leb→le, leb→lt,
  min, max,
}
use mini_net.Buffer.{
  Buffer, initial_size, readable_bytes, peek, retrieve, retrieve_until, retrieve_as_string, shrink,
}
use mini_net.Buffer.Slices.{drop-slice, take-take, slice-splice_front}
use mini_net.Buffer.View.{contents, IsValid, length-contents}

-- Retrieving drops bytes from the front, all of them if fewer are there.
pub retrieve-Refines :
    (b : Buffer) (n : ℕ)
    → IsValid b
    → IsValid (retrieve b n) × (contents (retrieve b n) ≡ drop n (contents b))
unfolding retrieve
retrieve-Refines b n v = elim (Bool-cases (leb (readable_bytes b) n)) [
  | inl all ↦ rw all (
    record { ordered = omega arith; within = omega arith },
    sym (drop_all n (contents b) (omega (arith, length-contents b v, leb→le _ _ all))),
  )
  | inr some ↦ rw some (
    record { ordered = omega (arith, leb→lt _ _ some); within = omega arith },
    sym (drop-slice b.buf b.read_idx b.write_idx n),
  )
]

-- On a valid buffer, retrieving up to an index from the read index on takes what lies before it.
pub retrieve_until-Refines :
    (b : Buffer) (n : ℕ)
    → IsValid b
    → IsValid (retrieve_until b (b.read_idx + n))
      × (contents (retrieve_until b (b.read_idx + n)) ≡ drop n (contents b))
unfolding retrieve_until
retrieve_until-Refines b n v = elim (Bool-cases (leb (b.read_idx + n) b.read_idx)) [
  | inl none ↦ let e : n ≡ 0 = omega (arith, leb→le _ _ none) in rw (none, e) (v, refl)
  | inr some ↦
      let e : b.read_idx + n - b.read_idx ≡ n = omega arith in rw (some, e) (retrieve-Refines b n v)
]

pub peek_lem : (b : Buffer) (n : ℕ) → n ≤ readable_bytes b → peek b n ≡ take n (contents b)
peek_lem b n h = sym (take-take n (readable_bytes b) (drop b.read_idx b.buf) h)

-- Cutting at the shorter of `n` and the length is cutting at `n`.
cut-min :
    (n k : ℕ) (xs : Bytes)
    → k ≡ min n (length xs)
    → (take k xs ≡ take n xs) × (drop k xs ≡ drop n xs)
cut-min n k xs e = elim (Bool-cases (leb (length xs) n)) [
  | inl all ↦
      let all' = leb→le _ _ all in
      let k' : length xs ≤ k = omega arith in
      (take_all k xs k' ∙ sym (take_all n xs all'), drop_all k xs k' ∙ sym (drop_all n xs all'))
  | inr some ↦ let e' : k ≡ n = omega (arith, leb→lt _ _ some) in rw e' (refl, refl)
]

-- On a valid buffer, reading out a string cuts the unread bytes in two, at `n` or at their end.
pub retrieve_as_string-Refines :
    (b : Buffer) (n : ℕ)
    → IsValid b
    → let (out, b') = retrieve_as_string b n in
      IsValid b' × (out ≡ take n (contents b)) × (contents b' ≡ drop n (contents b))
unfolding retrieve_as_string
retrieve_as_string-Refines b n v =
    let k = min n (readable_bytes b) in
    let (taken, left) = cut-min n k (contents b) (omega (arith, length-contents b v)) in
    let (valid, cut) = retrieve-Refines b k v in
    (valid, peek_lem b k (omega arith) ∙ taken, cut ∙ left)

-- On a valid buffer, shrinking reallocates and keeps the unread bytes.
shrink-Refines :
    (b : Buffer) (reserve : ℕ)
    → IsValid b
    → IsValid (shrink b reserve)
      × (contents (shrink b reserve) ≡ contents b)
      × (length (shrink b reserve).buf ≡ max initial_size (readable_bytes b + reserve))
unfolding shrink
shrink-Refines b reserve v =
    let fresh : Bytes = replicate (max initial_size (readable_bytes b + reserve)) 0 in
    let size : length fresh ≡ max initial_size (readable_bytes b + reserve) =
      length-replicate _ 0 in
    let kept : length (splice fresh 0 (contents b)) ≡ length fresh =
      length-splice fresh 0 (contents b) in
    (
      record { ordered = omega arith; within = omega arith },
      slice-splice_front fresh (contents b) (readable_bytes b) (length-contents b v) (omega arith),
      kept ∙ size,
    )
