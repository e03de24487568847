-- ===== src/Text/Compare.antt =====
-- Bytes, comparison, prefixes and searches: `==`, `HasPrefix`, `HasSuffix`, `IndexByte`, `Cut`,
-- `ContainsAny`.
use Prim.Native.Char.{code}
use Prim.Native.String.{String}
use tool_public_ubo.Base.{
  ℕ, ◌≡◌, refl, ap, ◌≢◌, ◌↔◌, Bool, true, false, ◌&&◌, ◌||◌, Option, none, some, List, [], ◌∷◌,
  ◌++◌, arith, ◌==◌, if◌then◌else◌, Lacks,
}

abbrev pub Bytes : Type 0
Bytes = List ℕ

-- The bytes of an ASCII literal.
abbrev pub codes : String → Bytes
codes String.[] = []
codes (String.◌∷◌ c s) = code c ∷ codes s

unfoldable pub equal : Bytes → Bytes → Bool
equal (c ∷ s) (d ∷ t) = c == d && equal s t
equal [] [] = true
equal _ _ = false

pub equal_iff : (s t : Bytes) → (equal s t ≡ true) ↔ (s ≡ t)
unfolding equal
equal_iff [] [] = ground arith
equal_iff (c ∷ s) (d ∷ t) = ground (arith, equal_iff s t)
equal_iff _ _ = ground arith

pub equal_refl : (a : Bytes) → equal a a ≡ true
equal_refl a = (equal_iff a a).1 refl

-- `s == ""`
unfoldable pub is_empty : Bytes → Bool
is_empty [] = true
is_empty (_ ∷ _) = false

pub is_empty_iff : (s : Bytes) → (is_empty s ≡ true) ↔ (s ≡ [])
unfolding is_empty
is_empty_iff [] = ground arith
is_empty_iff (_ ∷ _) = ground arith

pub not-is_empty : (s : Bytes) → s ≢ [] → is_empty s ≡ false
unfolding is_empty
not-is_empty [] h = absurd (h refl)
not-is_empty (_ ∷ _) h = refl

-- `strings.HasPrefix(s, prefix)`, with the rest of `s`.
unfoldable pub strip_prefix : Bytes → Bytes → Option Bytes
strip_prefix [] s = some s
strip_prefix (p ∷ ps) [] = none
strip_prefix (p ∷ ps) (c ∷ s) = if p == c then strip_prefix ps s else none

pub strip_prefix-append : (p rest : Bytes) → strip_prefix p (p ++ rest) ≡ some rest
unfolding strip_prefix
strip_prefix-append [] rest = refl
strip_prefix-append (c ∷ p) rest = ground (arith, strip_prefix-append p rest)

pub append_of_strip_prefix :
    (p s : Bytes) {rest : Bytes} → strip_prefix p s ≡ some rest → s ≡ p ++ rest
unfolding strip_prefix
append_of_strip_prefix [] s h = ground arith
append_of_strip_prefix (c ∷ p) [] h = ground arith
append_of_strip_prefix (c ∷ p) (d ∷ s) {rest} h =
    ground (arith, append_of_strip_prefix p s {rest = rest})

unfoldable pub has_prefix : Bytes → Bytes → Bool
has_prefix s [] = true
has_prefix [] (p ∷ ps) = false
has_prefix (c ∷ s) (p ∷ ps) = p == c && has_prefix s ps

-- The part in front of the first `b` and the part behind it, if there is a `b`:
-- `strings.Cut` by one byte, and `s[:i]`, `s[i+1:]` for `i = strings.IndexByte(s, b)`.
unfoldable pub cut : ℕ → Bytes → Option (Bytes × Bytes)
cut b [] = none
cut b (c ∷ s) =
    let found = cut b s in
    if c == b then some ([], s) else elim found [ none ↦ none | some (l, r) ↦ some (c ∷ l, r) ]

pub cut-append : (b : ℕ) (l r : Bytes) → Lacks b l → cut b (l ++ b ∷ r) ≡ some (l, r)
unfolding cut
cut-append b [] r h = ground arith
cut-append b (c ∷ l) r h = ground (arith, cut-append b l r h.1)

pub cut-Lacks : (b : ℕ) (s : Bytes) → Lacks b s → cut b s ≡ none
unfolding cut
cut-Lacks b [] h = refl
cut-Lacks b (c ∷ s) h = ground (arith, cut-Lacks b s h.1)

-- `s[:i]` for the first `b` at `i`, and `s` if there is none.
unfoldable pub before : ℕ → Bytes → Bytes
before b [] = []
before b (c ∷ s) = if c == b then [] else c ∷ before b s

pub before-Lacks : (b : ℕ) (s : Bytes) → Lacks b s → before b s ≡ s
unfolding before
before-Lacks b [] h = refl
before-Lacks b (c ∷ s) h = ground (arith, before-Lacks b s h.1)

unfoldable pub contains_byte : ℕ → Bytes → Bool
contains_byte b [] = false
contains_byte b (c ∷ s) = c == b || contains_byte b s

-- `strings.ContainsAny(s, chars)`
unfoldable pub contains_any : Bytes → Bytes → Bool
unfolding contains_byte
contains_any [] chars = false
contains_any (c ∷ s) chars = contains_byte c chars || contains_any s chars

pub contains_byte-Lacks : (b : ℕ) (s : Bytes) → contains_byte b s ≡ false → Lacks b s
unfolding contains_byte
contains_byte-Lacks b [] h = tt
contains_byte-Lacks b (c ∷ s) h = (ground arith, contains_byte-Lacks b s (ground arith))

pub Lacks-contains_byte : (b : ℕ) (s : Bytes) → Lacks b s → contains_byte b s ≡ false
unfolding contains_byte
Lacks-contains_byte b [] h = refl
Lacks-contains_byte b (c ∷ s) h = ground (arith, Lacks-contains_byte b s h.1)

-- The last byte, or `d` for the empty text.
abbrev pub last_or : ℕ → Bytes → ℕ
last_or d [] = d
last_or d (c ∷ s) = last_or c s

-- `s[:len(s)-1]`, and the empty text for the empty text.
unfoldable pub init : Bytes → Bytes
init [] = []
init (c ∷ []) = []
init (c ∷ d ∷ s) = c ∷ init (d ∷ s)

pub last_or-append : (d : ℕ) (s : Bytes) (c : ℕ) → last_or d (s ++ c ∷ []) ≡ c
last_or-append d [] c = refl
last_or-append d (x ∷ s) c = last_or-append x s c

pub last_or-cons : (d : ℕ) (s : Bytes) (a : ℕ) (t : Bytes) → last_or d (s ++ a ∷ t) ≡ last_or a t
last_or-cons d [] a t = refl
last_or-cons d (x ∷ s) a t = last_or-cons x s a t

pub init-append : (s : Bytes) (c : ℕ) → init (s ++ c ∷ []) ≡ s
unfolding init
init-append [] c = refl
init-append (x ∷ []) c = refl
init-append (x ∷ y ∷ s) c = ap (◌∷◌ x) (init-append (y ∷ s) c)
