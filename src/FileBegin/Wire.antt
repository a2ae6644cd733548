-- ===== src/FileBegin/Wire.antt =====
-- The layout of FILE_BEGIN: what the encoder's writes leave and where the decoder's reads fall.
use printdrop.Prelude.{
  ℕ, zero, suc, ◌+◌, ◌-◌, ◌≤◌, ◌≡◌, refl, sym, ap, ap₂, ◌∙◌, some, List, [], ◌∷◌, ◌++◌,
  append_assoc, ltb, ◌==◌, ◌||◌, not, if◌then◌else◌, length, length-append, length-replicate,
  get_or, get_or-append_right, drop-append_right, take, drop, replicate, take-length-append, arith,
}
use printdrop.Bytes.{store, at, u16_of, u64_of, read_u16_be}
use printdrop.Bytes.Text.{memchr}
use printdrop.Bytes.Store.{store_behind, store-zero, store_next}
use printdrop.FileBegin.{FileBegin, FileBeginResult, get_metadata, file_begin_decode}

-- The four writes of the encoder, one behind the other.
module _ (w d l name out : List ℕ) (w_size : length w ≡ 8) (d_size : length d ≡ 32)
    (l_size : length l ≡ 2) (room : 42 + length name ≤ length out) where
  write_size : store 0 w out ≡ w ++ drop 8 out
  write_size = store-zero w out (omega arith) ∙ ap (λ n. w ++ drop n out) w_size

  write_digest : store 8 d (w ++ drop 8 out) ≡ (w ++ d) ++ drop 40 out
  write_digest =
      store_next w d out 8 (sym w_size) (omega arith)
      ∙ ap (λ n. (w ++ d) ++ drop n out) {y = 40} (omega arith)

  write_length : store 40 l ((w ++ d) ++ drop 40 out) ≡ ((w ++ d) ++ l) ++ drop 42 out
  write_length =
      store_next (w ++ d) l out 40 (omega (arith, length-append w d)) (omega arith)
      ∙ ap (λ n. ((w ++ d) ++ l) ++ drop n out) {y = 42} (omega arith)

  write_name :
      store 42 name (((w ++ d) ++ l) ++ drop 42 out)
      ≡ (((w ++ d) ++ l) ++ name) ++ drop (42 + length name) out
  write_name =
      store_next ((w ++ d) ++ l) name out 42
        (omega (arith, length-append w d, length-append (w ++ d) l)) (omega arith)

  pub four_writes :
      store 42 name (store 40 l (store 8 d (store 0 w out)))
      ≡ (w ++ (d ++ (l ++ name))) ++ drop (42 + length name) out
  four_writes = rw (write_size, write_digest, write_length, write_name) (simp append_assoc)

-- What the decoder reads from a payload of eight bytes, a digest, two bytes and the name.
module _ (a b c e f g h i x y : ℕ) (d z : List ℕ) (d_size : length d ≡ 32) where
  abbrev pub wire : List ℕ
  wire = a ∷ b ∷ c ∷ e ∷ f ∷ g ∷ h ∷ i ∷ (d ++ (x ∷ y ∷ z))

  pub read_length : (at wire 40 ≡ x) × (at wire 41 ≡ y)
  read_length = (
    ap (λ n. get_or (d ++ (x ∷ y ∷ z)) n 0) {y = length d + 0} (omega arith)
        ∙ get_or-append_right d (x ∷ y ∷ z) 0 0,
    ap (λ n. get_or (d ++ (x ∷ y ∷ z)) n 0) {y = length d + 1} (omega arith)
        ∙ get_or-append_right d (x ∷ y ∷ z) 1 0,
  )

  pub read_tail : drop 40 wire ≡ x ∷ y ∷ z
  read_tail =
      ap (λ n. drop n (d ++ (x ∷ y ∷ z))) {x = 32} {y = length d + 0} (omega arith)
      ∙ drop-append_right d (x ∷ y ∷ z) 0

  pub read_name : drop 42 wire ≡ z
  read_name =
      ap (λ n. drop n (d ++ (x ∷ y ∷ z))) {x = 34} {y = length d + 2} (omega arith)
      ∙ drop-append_right d (x ∷ y ∷ z) 2

  read_digest : take 32 (drop 8 wire) ≡ d
  read_digest = ap (λ n. take n (d ++ (x ∷ y ∷ z))) (sym d_size) ∙ take-length-append d (x ∷ y ∷ z)

  -- The struct that the decoder would fill.
  abbrev pub decoded : FileBegin
  decoded =
      let n = u16_of x y in
      record {
        file_size = u64_of a b c e f g h i;
        sha256 = d;
        filename = store n (0 ∷ []) (store 0 (take n z) (replicate 121 0));
      }

  pub length_wire : read_u16_be wire 40 ≡ u16_of x y
  length_wire = ap₂ u16_of read_length.0 read_length.1

  metadata_wire : get_metadata wire (u16_of x y) ≡ decoded
  unfolding get_metadata
  metadata_wire = rw (read_name, read_digest)

  pub decode_wire :
      (size : ℕ) (old : FileBegin)
      → file_begin_decode (some wire) size (some old) ≡ (
          let n = u16_of x y in
          if ltb size 42 || n == 0 || ltb 120 n || not (size == 42 + n) || memchr z 0 n
          then (FileBeginResult.malformed, some old)
          else (FileBeginResult.ok, some decoded))
  unfolding file_begin_decode
  decode_wire size old = ground (arith, length_wire, read_name, metadata_wire)

drop-replicate : (n m : ℕ) (v : ℕ) → drop n (replicate m v) ≡ replicate (m - n) v
drop-replicate zero m v = ap (λ k. replicate k v) {x = m} {y = m - 0} (omega arith)
drop-replicate (suc n) zero v = ap (λ k. replicate k v) {x = 0} {y = zero - suc n} (omega arith)
drop-replicate (suc n) (suc m) v =
    drop-replicate n m v ∙ ap (λ k. replicate k v) {x = m - n} {y = suc m - suc n} (omega arith)

-- The NUL that the decoder adds falls on a zero.
add_nul : (k : ℕ) → 1 ≤ k → store 0 (0 ∷ []) (replicate k 0) ≡ replicate k 0
unfolding store
add_nul zero h = absurd (omega arith)
add_nul (suc k) h = refl

pub name_buffer :
    (name : List ℕ)
    → length name ≤ 120
    → store (length name) (0 ∷ []) (store 0 name (replicate 121 0))
      ≡ name ++ replicate (121 - length name) 0
name_buffer name h =
    ap (store (length name) (0 ∷ [])) (
      store-zero name (replicate 121 0) (omega (arith, length-replicate {A = ℕ} 121 0))
      ∙ ap (◌++◌ name) (drop-replicate (length name) 121 0))
    ∙ store_behind name (0 ∷ []) (replicate (121 - length name) 0)
    ∙ ap (◌++◌ name) (add_nul (121 - length name) (omega arith))
