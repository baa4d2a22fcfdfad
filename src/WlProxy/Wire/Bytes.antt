-- ===== src/WlProxy/Wire/Bytes.antt =====
-- crates/bubbler-wl-proxy/src/wire.rs: the two ends of each field. A word and a counted run of bytes
-- are read back where they were written, wherever that is in a body.
use bubbler.Prelude.{
  ℕ, ◌+◌, ◌-◌, ◌%◌, ◌^◌, ◌<◌, ◌≤◌, ◌≡◌, refl, sym, ap, ◌∙◌, false, some, List, [], ◌∷◌, ◌++◌,
  append_assoc, length, slice, replicate, IsU32, Endian, ok, u32_to_bytes, checked_add, ◌==◌, arith,
  slice-append, length-append, length-replicate, le→not-ltb, lt→ltb,
}
use bubbler.Prelude.{length-u32_to_bytes, u32_of_slice-u32_to_bytes, checked_add-some}
use bubbler.WlProxy.Wire.{
  string, take_word, take_bytes, take_string, put_bytes, split_last, has_nul, IsText,
  checked_next_multiple_of_4,
}

-- The bytes of a counted run, with its padding.
unfoldable pub padding : ℕ → ℕ
padding n = (4 - n % 4) % 4

unfoldable pub counted : Endian → List ℕ → List ℕ
counted order bytes =
    u32_to_bytes order (length bytes) ++ (bytes ++ replicate (padding (length bytes)) 0)

pub length-counted :
    (order : Endian) (bytes : List ℕ)
    → length (counted order bytes) ≡ 4 + (length bytes + padding (length bytes))
unfolding counted
length-counted order bytes = omega (
  arith,
  length-append (u32_to_bytes order (length bytes)) (bytes ++ replicate (padding (length bytes)) 0),
  length-append bytes (replicate (padding (length bytes)) 0),
  length-u32_to_bytes order (length bytes),
  length-replicate {A = ℕ} (padding (length bytes)) 0,
)

pub put_bytes-counted :
    (order : Endian) (body bytes : List ℕ)
    → length bytes < 2 ^ 32
    → put_bytes order body bytes ≡ ok (body ++ counted order bytes)
unfolding put_bytes counted padding
put_bytes-counted order body bytes h = rw (lt→ltb _ _ h)

-- A word written after `pre` is read back there.
pub take_word-append :
    (order : Endian) (pre post : List ℕ) (v at : ℕ)
    → at ≡ length pre
    → IsU32 v
    → length pre + 4 < 2 ^ 64
    → take_word order (pre ++ (u32_to_bytes order v ++ post)) at ≡ ok (v, at + 4)
unfolding take_word
take_word-append order pre post v at e h small = rw (
  checked_add-some at 4 (omega arith),
  slice-append pre (u32_to_bytes order v) post at (at + 4) e
      (omega (arith, length-u32_to_bytes order v)),
  u32_of_slice-u32_to_bytes order v h,
)

next_multiple : (n : ℕ) → n + 4 < 2 ^ 64 → checked_next_multiple_of_4 n ≡ some (n + padding n)
unfolding checked_next_multiple_of_4 padding checked_add
next_multiple n h = ground arith

-- A padded run written after `pre` is read back there, and the cursor steps past the padding.
pub take_bytes-append :
    (pre bytes post : List ℕ) (at : ℕ)
    → at ≡ length pre
    → length pre + length bytes + 4 < 2 ^ 64
    → take_bytes
        (pre ++ ((bytes ++ replicate (padding (length bytes)) 0) ++ post))
        at
        (length bytes)
      ≡ ok (bytes, at + (length bytes + padding (length bytes)))
unfolding take_bytes
take_bytes-append pre bytes post at e small = rw (
  next_multiple (length bytes) (omega arith),
  checked_add-some at (length bytes) (omega arith),
  checked_add-some at (length bytes + padding (length bytes)) (unfold padding in omega arith),
  le→not-ltb _ _ fits,
  found,
)
  where
    pad : List ℕ
    pad = replicate (padding (length bytes)) 0

    fits : at + (length bytes + padding (length bytes)) ≤ length (pre ++ ((bytes ++ pad) ++ post))
    fits = omega (
      arith,
      e,
      length-append pre ((bytes ++ pad) ++ post),
      length-append (bytes ++ pad) post,
      length-append bytes pad,
      length-replicate {A = ℕ} (padding (length bytes)) 0,
    )

    found : slice (pre ++ ((bytes ++ pad) ++ post)) at (at + length bytes) ≡ some bytes
    found = rw (append_assoc bytes pad post) (slice-append pre bytes (pad ++ post) _ _ e refl)

pub split_last-append : (text : List ℕ) (b : ℕ) → split_last (text ++ (b ∷ [])) ≡ some (b, text)
unfolding split_last
split_last-append [] b = refl
split_last-append (t ∷ ts) b = rw (split_last-append ts b)

pub IsText-has_nul : (text : List ℕ) → IsText text → has_nul text ≡ false
unfolding has_nul
IsText-has_nul [] h = refl
IsText-has_nul (b ∷ bs) h = ground (arith, IsText-has_nul bs)

pub take_string-append :
    (pre text post : List ℕ) (at : ℕ)
    → IsText text
    → at ≡ length pre
    → length pre + (length text + 1) + 4 < 2 ^ 64
    → let bytes = text ++ (0 ∷ []) in
      take_string
        (pre ++ ((bytes ++ replicate (padding (length bytes)) 0) ++ post))
        at
        (length bytes)
      ≡ ok (string (some text), at + (length bytes + padding (length bytes)))
unfolding take_string
take_string-append pre text post at t e small = rw (
  pos,
  take_bytes-append pre (text ++ (0 ∷ [])) post at e (omega (arith, len)),
  split_last-append text 0,
  IsText-has_nul text t,
)
  where
    len : length (text ++ (0 ∷ [])) ≡ length text + 1
    len = omega (arith, length-append text (0 ∷ []))

    pos : (length (text ++ (0 ∷ [])) == 0) ≡ false
    pos = ground (arith, len)

-- The parts of a counted run that was written after `pre`: its count, and then what follows it.
module _ (order : Endian) (pre bytes post : List ℕ) (at : ℕ) (e : at ≡ length pre) where
  pub take_word-counted :
      IsU32 (length bytes)
      → length pre + 4 < 2 ^ 64
      → take_word order (pre ++ (counted order bytes ++ post)) at ≡ ok (length bytes, at + 4)
  unfolding counted
  take_word-counted h small =
      rw (append_assoc (u32_to_bytes order (length bytes)))
        (take_word-append order pre _ (length bytes) at e h small)

  pub counted-split :
      pre ++ (counted order bytes ++ post)
      ≡ (pre ++ u32_to_bytes order (length bytes))
        ++ ((bytes ++ replicate (padding (length bytes)) 0) ++ post)
  unfolding counted
  counted-split =
      ap (λ t. pre ++ t) (append_assoc (u32_to_bytes order (length bytes)) _ post)
      ∙ sym (append_assoc pre (u32_to_bytes order (length bytes)) _)

  pub length-count : at + 4 ≡ length (pre ++ u32_to_bytes order (length bytes))
  length-count = omega (
    arith,
    e,
    length-append pre (u32_to_bytes order (length bytes)),
    length-u32_to_bytes order (length bytes),
  )
