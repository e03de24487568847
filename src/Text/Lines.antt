-- ===== src/Text/Lines.antt =====
-- Lines: `strings.Split(s, "\n")`, and the lines of a `bufio.Scanner`.
use tool_public_ubo.Base.{
  ℕ, ◌≡◌, refl, Bool, true, false, List, [], ◌∷◌, ◌++◌, arith, ltb, ◌==◌, if◌then◌else◌, length,
  Lacks, ◌≤◌, suc, Bool-cases, inl, inr,
}
use tool_public_ubo.Text.Compare.{Bytes, codes, last_or, init}

abbrev cons_head : ℕ → List Bytes → List Bytes
cons_head c [] = (c ∷ []) ∷ []
cons_head c (l ∷ ls) = (c ∷ l) ∷ ls

-- `strings.Split` at one byte. There is always a first part.
unfoldable pub split : ℕ → Bytes → List Bytes
split b [] = [] ∷ []
split b (c ∷ s) = let rest = split b s in if c == b then [] ∷ rest else cons_head c rest

pub split-append : (b : ℕ) (l r : Bytes) → Lacks b l → split b (l ++ b ∷ r) ≡ l ∷ split b r
unfolding split
split-append b [] r h = ground arith
split-append b (c ∷ l) r h = ground (arith, split-append b l r h.1)

pub split-Lacks : (b : ℕ) (l : Bytes) → Lacks b l → split b l ≡ l ∷ []
unfolding split
split-Lacks b [] h = refl
split-Lacks b (c ∷ l) h = ground (arith, split-Lacks b l h.1)

-- The longest line that fits the buffer of a `bufio.Scanner`, `bufio.MaxScanTokenSize` being 65536.
abbrev pub max_line : ℕ
max_line = 65535

-- A carriage return at the end of a line is dropped.
drop_cr : Bytes → Bytes
unfolding init
drop_cr l = if last_or 0 l == b'\r' then init l else l

-- The lines that `Scan` gives, and whether it stops at one that is too long. The part behind the
-- last newline is a line if it is not empty.
scan_parts : List Bytes → List Bytes × Bool
unfolding drop_cr
scan_parts [] = ([], false)
scan_parts ([] ∷ []) = ([], false)
scan_parts (l ∷ ls) =
    let rest = scan_parts ls in
    if ltb max_line (length l) then ([], true) else (drop_cr l ∷ rest.0, rest.1)

unfoldable pub scan_lines : Bytes → List Bytes × Bool
unfolding scan_parts split
scan_lines s = scan_parts (split b'\n' s)

split-ne-nil : (b : ℕ) (s : Bytes) → (l : Bytes) × (ls : List Bytes) × (split b s ≡ l ∷ ls)
unfolding split
split-ne-nil b [] = ([], [], refl)
split-ne-nil b (c ∷ s) = elim (Bool-cases (c == b)) [
  | inl e ↦ ([], split b s, rw e refl)
  | inr e ↦ (let (l, ls, h) = split-ne-nil b s in (c ∷ l, ls, rw (e, h) refl))
]

scan_parts-cons :
    (l m : Bytes) (ls : List Bytes)
    → (last_or 0 l == b'\r') ≡ false
    → length l ≤ max_line
    → scan_parts (l ∷ m ∷ ls) ≡ (l ∷ (scan_parts (m ∷ ls)).0, (scan_parts (m ∷ ls)).1)
unfolding scan_parts drop_cr
scan_parts-cons [] m ls end short = refl
scan_parts-cons (c ∷ l) m ls end short =
    let fits : ltb max_line (suc (length l)) ≡ false = ground arith in rw (end, fits) refl

-- A line that fits the buffer and has no carriage return at its end.
pub scan_lines-append :
    (l s : Bytes)
    → Lacks b'\n' l
    → (last_or 0 l == b'\r') ≡ false
    → length l ≤ max_line
    → scan_lines (l ++ b'\n' ∷ s) ≡ (l ∷ (scan_lines s).0, (scan_lines s).1)
unfolding scan_lines
scan_lines-append l s h end short =
    let (m, ls, e) = split-ne-nil b'\n' s in
    rw (split-append b'\n' l s h, e) (scan_parts-cons l m ls end short)

scan_lines_test : scan_lines (codes "a\r\n\nb") ≡ (codes "a" ∷ [] ∷ codes "b" ∷ [], false)
unfolding scan_lines
scan_lines_test = refl
