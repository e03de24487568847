-- ===== src/Text/FilePath.antt =====
-- Paths: `filepath.Clean`, `filepath.Join` of two elements and `filepath.Dir`, on Unix.
use tool_public_ubo.Base.{
  Bool, true, false, not, ◌||◌, ◌&&◌, List, [], ◌∷◌, ◌++◌, ◌==◌, if◌then◌else◌, reverse, ◌≡◌, refl,
}
use tool_public_ubo.Text.Compare.{Bytes, codes, equal, is_empty}
use tool_public_ubo.Text.Lines.{split}

-- The components that are kept so far, the last one first, behind one more component.
clean_step : Bool → List Bytes → Bytes → List Bytes
unfolding equal
clean_step rooted [] p =
    if is_empty p || equal p (codes ".") || (rooted && equal p (codes "..")) then [] else p ∷ []
clean_step rooted (top ∷ kept) p =
    if is_empty p || equal p (codes ".")
    then top ∷ kept
    else if equal p (codes "..")
    then (if equal top (codes "..") then p ∷ top ∷ kept else kept)
    else p ∷ top ∷ kept

clean_all : Bool → List Bytes → List Bytes → List Bytes
unfolding clean_step
clean_all rooted kept [] = reverse kept
clean_all rooted kept (p ∷ ps) = clean_all rooted (clean_step rooted kept p) ps

join_slash : List Bytes → Bytes
join_slash [] = []
join_slash (p ∷ []) = p
join_slash (p ∷ q ∷ ps) = p ++ (codes "/" ++ join_slash (q ∷ ps))

is_rooted : Bytes → Bool
is_rooted [] = false
is_rooted (c ∷ _) = c == b'/'

-- `filepath.Clean`
unfoldable pub clean : Bytes → Bytes
unfolding clean_all join_slash is_rooted split is_empty
clean path =
    let out = join_slash (clean_all (is_rooted path) [] (split b'/' path)) in
    if is_rooted path then b'/' ∷ out else if is_empty out then codes "." else out

rooted_there :
    (rooted : Bool) (out : Bytes)
    → is_empty (if rooted then b'/' ∷ out else if is_empty out then codes "." else out) ≡ false
unfolding is_empty
rooted_there true out = refl
rooted_there false [] = refl
rooted_there false (c ∷ out) = refl

pub clean_there : (path : Bytes) → is_empty (clean path) ≡ false
unfolding clean
clean_there path = rooted_there (is_rooted path) _

-- `filepath.Join(a, b)`
unfoldable pub join : Bytes → Bytes → Bytes
unfolding clean
join a b =
    if not (is_empty a)
    then clean (a ++ (codes "/" ++ b))
    else if not (is_empty b)
    then clean b
    else []

-- The text up to the last slash.
up_to_slash : Bytes → Bytes
up_to_slash [] = []
up_to_slash (c ∷ s) =
    let rest = up_to_slash s in if is_empty rest && not (c == b'/') then [] else c ∷ rest

-- `filepath.Dir`
unfoldable pub dir : Bytes → Bytes
unfolding clean up_to_slash
dir path = clean (up_to_slash path)

clean_test : clean (codes "a//b/./../c/") ≡ codes "a/c"
unfolding clean
clean_test = refl

dir_test : dir (codes "/tmp/ubo-setup.sh") ≡ codes "/tmp"
unfolding dir
dir_test = refl

dir_plain : dir (codes "ubo.toml") ≡ codes "."
unfolding dir
dir_plain = refl
