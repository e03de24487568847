-- ===== src/Text/Space.antt =====
-- White space: `strings.TrimSpace` and `strings.Fields`. A white space character is one byte, or
-- the two or three bytes of its UTF-8 encoding.
use tool_public_ubo.Base.{
  ℕ, zero, suc, ◌-◌, ◌≤◌, ◌≡◌, refl, sym, ap, ◌∙◌, Bool, ◌&&◌, ◌||◌, List, [], ◌∷◌, ◌++◌, reverse,
  reverse-append, reverse-reverse, arith, ◌==◌, if◌then◌else◌, within, All,
}
use tool_public_ubo.Text.Compare.{Bytes, codes, last_or, init}

-- '\t', '\n', '\v', '\f', '\r', ' '
unfoldable pub is_space : ℕ → Bool
is_space c = within 9 13 c || c == 32

-- U+0085 and U+00A0
is_space_2 : ℕ → ℕ → Bool
is_space_2 a b = a == 0xC2 && (b == 0x85 || b == 0xA0)

-- U+1680, U+2000 to U+200A, U+2028, U+2029, U+202F, U+205F and U+3000
is_space_3 : ℕ → ℕ → ℕ → Bool
is_space_3 a b c =
    (a == 0xE1 && b == 0x9A && c == 0x80)
    || (a == 0xE2 && b == 0x80 && (within 0x80 0x8A c || c == 0xA8 || c == 0xA9 || c == 0xAF))
    || (a == 0xE2 && b == 0x81 && c == 0x9F)
    || (a == 0xE3 && b == 0x80 && c == 0x80)

-- How many bytes the white space character in front of the text takes, 0 if there is none.
unfoldable pub space_width : Bytes → ℕ
unfolding is_space is_space_2 is_space_3
space_width [] = 0
space_width (a ∷ []) = if is_space a then 1 else 0
space_width (a ∷ b ∷ []) = if is_space a then 1 else if is_space_2 a b then 2 else 0
space_width (a ∷ b ∷ c ∷ _) =
    if is_space a then 1 else if is_space_2 a b then 2 else if is_space_3 a b c then 3 else 0

-- The same for a text that is read backwards.
unfoldable pub space_width_back : Bytes → ℕ
unfolding is_space is_space_2 is_space_3
space_width_back [] = 0
space_width_back (a ∷ []) = if is_space a then 1 else 0
space_width_back (a ∷ b ∷ []) = if is_space a then 1 else if is_space_2 b a then 2 else 0
space_width_back (a ∷ b ∷ c ∷ _) =
    if is_space a then 1 else if is_space_2 b a then 2 else if is_space_3 c b a then 3 else 0

-- Drops `skip` bytes, then white space characters as long as there is one in front.
unfoldable pub strip : (Bytes → ℕ) → ℕ → Bytes → Bytes
strip width skip [] = []
strip width (suc skip) (c ∷ s) = strip width skip s
strip width zero (c ∷ s) =
    let w = width (c ∷ s) in let rest = strip width (w - 1) s in if w == 0 then c ∷ s else rest

unfoldable pub trim_left : Bytes → Bytes
unfolding strip space_width
trim_left s = strip space_width 0 s

unfoldable pub trim_right : Bytes → Bytes
unfolding strip space_width_back
trim_right s = reverse (strip space_width_back 0 (reverse s))

-- `strings.TrimSpace`
unfoldable pub trim_space : Bytes → Bytes
unfolding trim_left trim_right
trim_space s = trim_right (trim_left s)

-- A printable ASCII character other than the blank.
abbrev pub IsGraphic : ℕ → Type 0
IsGraphic c = (33 ≤ c) × (c ≤ 126)

graphic-space_width : (a : ℕ) (s : Bytes) → IsGraphic a → space_width (a ∷ s) ≡ 0
unfolding space_width
graphic-space_width a [] h = ground arith
graphic-space_width a (b ∷ []) h = ground arith
graphic-space_width a (b ∷ c ∷ s) h = ground arith

graphic-space_width_back : (a : ℕ) (s : Bytes) → IsGraphic a → space_width_back (a ∷ s) ≡ 0
unfolding space_width_back
graphic-space_width_back a [] h = ground arith
graphic-space_width_back a (b ∷ []) h = ground arith
graphic-space_width_back a (b ∷ c ∷ s) h = ground arith

strip_stop :
    (width : Bytes → ℕ) (c : ℕ) (s : Bytes) → width (c ∷ s) ≡ 0 → strip width 0 (c ∷ s) ≡ c ∷ s
unfolding strip
strip_stop width c s h = ground arith

pub trim_left-graphic : (a : ℕ) (s : Bytes) → IsGraphic a → trim_left (a ∷ s) ≡ a ∷ s
unfolding trim_left
trim_left-graphic a s h = strip_stop space_width a s (graphic-space_width a s h)

pub trim_right-graphic : (s : Bytes) (a : ℕ) → IsGraphic a → trim_right (s ++ a ∷ []) ≡ s ++ a ∷ []
unfolding trim_right
trim_right-graphic s a h = rw (reverse-append s (a ∷ [])) (
    rw (strip_stop space_width_back a (reverse s) (graphic-space_width_back a (reverse s) h))
      (rw (← reverse-append s (a ∷ [])) (reverse-reverse (s ++ a ∷ []))))

-- A text between two graphic characters is left as it is.
pub trim_space-graphic :
    (a : ℕ) (s : Bytes) (b : ℕ)
    → IsGraphic a
    → IsGraphic b
    → trim_space (a ∷ (s ++ b ∷ [])) ≡ a ∷ (s ++ b ∷ [])
trim_space-graphic a s b ha hb =
    unfold trim_space in
    ap trim_right (trim_left-graphic a (s ++ b ∷ []) ha) ∙ trim_right-graphic (a ∷ s) b hb

pub trim_space-one : (a : ℕ) → IsGraphic a → trim_space (a ∷ []) ≡ a ∷ []
trim_space-one a h =
    unfold trim_space in ap trim_right (trim_left-graphic a [] h) ∙ trim_right-graphic [] a h

strip_step :
    (width : Bytes → ℕ) (c : ℕ) (s : Bytes) (k : ℕ)
    → width (c ∷ s) ≡ suc k
    → strip width 0 (c ∷ s) ≡ strip width k s
unfolding strip
strip_step width c s k h = ground arith

blank-space_width : (s : Bytes) → space_width (b' ' ∷ s) ≡ 1
unfolding space_width
blank-space_width [] = refl
blank-space_width (a ∷ []) = refl
blank-space_width (a ∷ b ∷ s) = refl

pub trim_space_blank : (s : Bytes) → trim_space (b' ' ∷ s) ≡ trim_space s
unfolding trim_space
trim_space_blank s = ap trim_right (strip_step space_width b' ' s 0 (blank-space_width s))

blank-space_width_back : (s : Bytes) → space_width_back (b' ' ∷ s) ≡ 1
unfolding space_width_back
blank-space_width_back [] = refl
blank-space_width_back (a ∷ []) = refl
blank-space_width_back (a ∷ b ∷ s) = refl

trim_right_blank : (s : Bytes) → trim_right (s ++ b' ' ∷ []) ≡ trim_right s
unfolding trim_right
trim_right_blank s = rw (reverse-append s (b' ' ∷ [])) (
    ap reverse
      (strip_step space_width_back b' ' (reverse s) 0 (blank-space_width_back (reverse s))))

init-last : (a : ℕ) (s : Bytes) → init (a ∷ s) ++ last_or a s ∷ [] ≡ a ∷ s
unfolding init
init-last a [] = refl
init-last a (b ∷ s) = ap (◌∷◌ a) (init-last b s)

-- A text that begins and ends with a graphic character is left as it is.
pub trim_space-ends :
    (a : ℕ) (s : Bytes) → IsGraphic a → IsGraphic (last_or a s) → trim_space (a ∷ s) ≡ a ∷ s
trim_space-ends a [] ha hl = trim_space-one a ha
trim_space-ends a (b ∷ s) ha hl =
    rw (← init-last b s) (trim_space-graphic a (init (b ∷ s)) (last_or b s) ha hl)

pub All-last : (d : ℕ) (s : Bytes) → IsGraphic d → All IsGraphic s → IsGraphic (last_or d s)
All-last d [] hd hs = hd
All-last d (c ∷ s) hd hs = All-last c s hs.0 hs.1

pub trim_space-All : (s : Bytes) → All IsGraphic s → trim_space s ≡ s
trim_space-All [] h = unfold trim_space in refl
trim_space-All (c ∷ s) h = trim_space-ends c s h.0 (All-last c s h.0 h.1)

-- A blank behind a text of graphic characters is dropped.
pub trim_space_blank_end : (s : Bytes) → All IsGraphic s → trim_space (s ++ b' ' ∷ []) ≡ s
trim_space_blank_end [] h = unfold trim_space in refl
trim_space_blank_end (c ∷ s) h =
    unfold trim_space in
    (ap trim_right (trim_left-graphic c (s ++ b' ' ∷ []) h.0)
      ∙ trim_right_blank (c ∷ s)
      ∙ ap trim_right (sym (trim_left-graphic c s h.0)))
    ∙ trim_space-All (c ∷ s) h

-- The words in front of `rest`: `cur` is a word, or nothing.
abbrev flush : Bytes → List Bytes → List Bytes
flush [] rest = rest
flush (c ∷ cur) rest = (c ∷ cur) ∷ rest

-- `skip` bytes belong to a white space character, `cur` is the word so far.
fields_from : ℕ → Bytes → Bytes → List Bytes
fields_from skip cur [] = flush cur []
fields_from (suc skip) cur (c ∷ s) = fields_from skip cur s
fields_from zero cur (c ∷ s) =
    let w = space_width (c ∷ s) in
    let rest = fields_from (w - 1) (if w == 0 then cur ++ c ∷ [] else []) s in
    if w == 0 then rest else flush cur rest

-- `strings.Fields`
unfoldable pub fields : Bytes → List Bytes
unfolding fields_from space_width
fields s = fields_from 0 [] s

fields_test : fields (codes " a bc\t d\n") ≡ codes "a" ∷ codes "bc" ∷ codes "d" ∷ []
unfolding fields
fields_test = refl

trim_test : trim_space (0xC2 ∷ 0xA0 ∷ codes " a b \r") ≡ codes "a b"
unfolding trim_space
trim_test = refl
