-- ===== src/Setup/Names.antt =====
-- `charRange`, `isValidInterfaceName` and `isValidHostname` of internal/setup/setup.go. The ranges
-- are ASCII ones, so that a test of every byte is a test of every character.
use tool_public_ubo.Base.{
  ℕ, Bool, true, false, ◌&&◌, ◌||◌, List, [], ◌∷◌, ltb, leb, length, if◌then◌else◌, ◌≡◌, ◌≤◌, ◌⊎◌,
  arith, All,
}
use tool_public_ubo.Text.Compare.{Bytes, is_empty}

pub record CharRange : Type 0 where
  pub lo : ℕ
  pub hi : ℕ

abbrev range : ℕ → ℕ → CharRange
range lo hi = record { lo = lo; hi = hi }

abbrev pub valid_interface_ranges : List CharRange
valid_interface_ranges =
    range b'a' b'z'
    ∷ range b'A' b'Z'
    ∷ range b'0' b'9'
    ∷ range b'-' b'-'
    ∷ range b'_' b'_'
    ∷ range b'.' b'.'
    ∷ []

abbrev pub valid_hostname_ranges : List CharRange
valid_hostname_ranges =
    range b'a' b'z' ∷ range b'A' b'Z' ∷ range b'0' b'9' ∷ range b'-' b'-' ∷ range b'.' b'.' ∷ []

in_ranges : List CharRange → ℕ → Bool
in_ranges [] c = false
in_ranges (r ∷ rs) c = (leb r.lo c && leb c r.hi) || in_ranges rs c

unfoldable pub is_valid_interface_char : ℕ → Bool
unfolding in_ranges
is_valid_interface_char c = in_ranges valid_interface_ranges c

unfoldable pub is_valid_hostname_char : ℕ → Bool
unfolding in_ranges
is_valid_hostname_char c = in_ranges valid_hostname_ranges c

all_chars : (ℕ → Bool) → Bytes → Bool
all_chars p [] = true
all_chars p (c ∷ s) = p c && all_chars p s

unfoldable pub is_valid_interface_name : Bytes → Bool
unfolding all_chars
is_valid_interface_name name =
    if is_empty name || ltb 15 (length name) then false else all_chars is_valid_interface_char name

unfoldable pub is_valid_hostname : Bytes → Bool
unfolding all_chars
is_valid_hostname name =
    if is_empty name || ltb 63 (length name) then false else all_chars is_valid_hostname_char name

abbrev Within : ℕ → ℕ → ℕ → Type 0
Within lo hi c = (lo ≤ c) × (c ≤ hi)

-- A letter or a digit, or a dash or a dot: nothing of it means anything to a shell, to sed, to the reader of
-- /etc/default/grub, or inside a field of the kernel's parameter ip=.
pub IsHostChar : ℕ → Type 0
IsHostChar c =
    Within b'a' b'z' c ⊎ (Within b'A' b'Z' c ⊎ (Within b'0' b'9' c ⊎ ((c ≡ b'-') ⊎ (c ≡ b'.'))))

hostname_char-IsHostChar : (c : ℕ) → is_valid_hostname_char c ≡ true → IsHostChar c
unfolding is_valid_hostname_char in_ranges IsHostChar
hostname_char-IsHostChar c h = ground arith

all_chars-All :
    {P : ℕ → Type 0} (p : ℕ → Bool)
    → ((c : ℕ) → p c ≡ true → P c)
    → (s : Bytes) → all_chars p s ≡ true
    → All P s
unfolding all_chars
all_chars-All p good [] h = tt
all_chars-All p good (c ∷ s) h = (good c (ground arith), all_chars-All p good s (ground arith))

-- A name that passes is not empty, has 63 bytes at most, and only such characters.
pub is_valid_hostname-All :
    (name : Bytes)
    → is_valid_hostname name ≡ true
    → (length name ≤ 63) × (is_empty name ≡ false) × All IsHostChar name
unfolding is_valid_hostname
is_valid_hostname-All name h = (
  ground arith,
  ground arith,
  all_chars-All is_valid_hostname_char hostname_char-IsHostChar name (ground arith),
)
