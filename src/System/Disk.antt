-- ===== src/System/Disk.antt =====
-- The local disk as the functions `os.ReadFile`, `os.WriteFile`, `os.Stat` and `os.Remove` see it.
-- Which calls fail is a part of the disk, so that every error path is taken by some disk.
use tool_public_ubo.Base.{
  ℕ, ◌≡◌, refl, sym, ap, ◌∙◌, inl, inr, Bool-cases, Option-cases, Bool, true, false, Option, none,
  some, if◌then◌else◌, arith,
}
use tool_public_ubo.Base.Result.{Result, ok, err}
use tool_public_ubo.Text.Compare.{Bytes, equal, equal_iff, equal_refl}

pub record File : Type 0 where
  pub content : Bytes
  pub mode : ℕ

pub record Disk : Type 0 where
  pub files : Bytes → Option File
  -- a read of the path fails although the file is there
  pub unreadable : Bytes → Bool
  -- a write to the path fails, and what it leaves there
  pub unwritable : Bytes → Bool
  pub leftover : Bytes → Option File
  -- a removal of the path fails although the file is there
  pub fixed : Bytes → Bool

pub data IoError : Type 0 where
  not_exist denied : IoError

abbrev pub update : (Bytes → Option File) → Bytes → Option File → Bytes → Option File
update files path f p = if equal path p then f else files p

-- `os.Stat(path)` gives no error.
unfoldable pub exists : Disk → Bytes → Bool
exists d path = elim (d.files path) [ none ↦ false | some _ ↦ true ]

read_found : Bool → Option File → Result IoError Bytes
read_found unreadable none = err not_exist
read_found true (some _) = err denied
read_found false (some f) = ok f.content

unfoldable pub read_file : Disk → Bytes → Result IoError Bytes
unfolding read_found
read_file d path = read_found (d.unreadable path) (d.files path)

-- A file that is there keeps its mode.
unfoldable pub written : Option File → Bytes → ℕ → File
written none content mode = record { content = content; mode = mode }
written (some f) content mode = record { content = content; mode = f.mode }

-- `os.WriteFile`: the disk behind the call, and whether it went well.
unfoldable pub write_file : Disk → Bytes → Bytes → ℕ → Disk × Bool
unfolding written
write_file d path content mode =
    if d.unwritable path
    then (record d { files = update d.files path (d.leftover path) }, false)
    else (
      record d { files = update d.files path (some (written (d.files path) content mode)) },
      true,
    )

remove_found : Disk → Bytes → Bool → Option File → Disk × Result IoError (Unit {0})
remove_found d path fixed none = (d, err not_exist)
remove_found d path true (some _) = (d, err denied)
remove_found d path false (some _) = (record d { files = update d.files path none }, ok tt)

unfoldable pub remove : Disk → Bytes → Disk × Result IoError (Unit {0})
unfolding remove_found
remove d path = remove_found d path (d.fixed path) (d.files path)

pub update_self :
    (files : Bytes → Option File) (p : Bytes) (f : Option File) → update files p f p ≡ f
update_self files p f = ground (arith, equal_refl p)

written_content :
    (f : Option File) (content : Bytes) (mode : ℕ) → (written f content mode).content ≡ content
unfolding written
written_content none content mode = refl
written_content (some f) content mode = refl

-- Every file is the same but the one at `p`.
unfoldable pub SameBut : Bytes → Disk → Disk → Type 0
SameBut p d d' = (q : Bytes) → equal p q ≡ false → d'.files q ≡ d.files q

pub SameBut-trans : (p : Bytes) (d e f : Disk) → SameBut p d e → SameBut p e f → SameBut p d f
unfolding SameBut
SameBut-trans p d e f h k q apart = k q apart ∙ h q apart

-- A written file is read back, if the path can be written and read.
pub read_file-write_file :
    (d : Disk) (path content : Bytes) (mode : ℕ)
    → d.unwritable path ≡ false
    → d.unreadable path ≡ false
    → read_file (write_file d path content mode).0 path ≡ ok content
unfolding read_file write_file
read_file-write_file d path content mode w r =
    rw w (ground (arith, equal_refl path, written_content (d.files path) content mode, r))

-- A successful write changes the one file.
pub write_file_ok :
    (d : Disk) (p t : Bytes) (m : ℕ) {d' : Disk}
    → write_file d p t m ≡ (d', true)
    → d' ≡ record d { files = update d.files p (some (written (d.files p) t m)) }
write_file_ok d p t m h = elim (Bool-cases (d.unwritable p)) [
  | inl bad ↦ absurd (unfold write_file in ground arith)
  | inr good ↦ unfold write_file in ground arith
]

remove_there :
    (d : Disk) (p : Bytes) (f : File)
    → d.files p ≡ some f
    → d.fixed p ≡ false
    → (remove d p).0.files ≡ update d.files p none
unfolding remove
remove_there d p f h k = rw (h, k)

update_undone :
    (files : Bytes → Option File) (p : Bytes) (f : Option File) (q : Bytes)
    → files p ≡ none
    → update (update files p f) p none q ≡ files q
update_undone files p f q h = elim (Bool-cases (equal p q)) [
  | inl same ↦ rw (same, ← (equal_iff p q).0 same) (sym h)
  | inr other ↦ rw other refl
]

-- To remove a file that was just made leaves every file as it was.
pub remove-write_file :
    (d : Disk) (p t : Bytes) (m : ℕ) {d' : Disk} (q : Bytes)
    → write_file d p t m ≡ (d', true)
    → d.files p ≡ none
    → d.fixed p ≡ false
    → (remove d' p).0.files q ≡ d.files q
remove-write_file d p t m q w absent removable =
    let new = some (written (d.files p) t m) in
    let made = record d { files = update d.files p new } in
    rw (write_file_ok d p t m w) (
      ap (λ (files : Bytes → Option File). files q)
        (remove_there made p (written (d.files p) t m) (update_self d.files p new) removable)
      ∙ update_undone d.files p new q absent)

pub files-remove :
    (d : Disk) (p q : Bytes)
    → d.fixed p ≡ false
    → (remove d p).0.files q ≡ (if equal p q then none else d.files q)
files-remove d p q h = elim (Option-cases (d.files p)) [
  | inl absent ↦ elim (Bool-cases (equal p q)) [
    | inl same ↦
        rw (same, ← (equal_iff p q).0 same) (unfold remove in rw (absent, remove_found) absent)
    | inr other ↦ rw other (unfold remove in rw (absent, remove_found))
  ]
  | inr (f, there) ↦ ap (λ (files : Bytes → Option File). files q) (remove_there d p f there h)
]

pub unreadable-write_file :
    (d : Disk) (p t : Bytes) (m : ℕ) → (write_file d p t m).0.unreadable ≡ d.unreadable
unfolding write_file
unreadable-write_file d p t m = ground arith

pub unreadable-remove : (d : Disk) (p : Bytes) → (remove d p).0.unreadable ≡ d.unreadable
unfolding remove
unreadable-remove d p = removed (d.fixed p) (d.files p)
  where
    removed : (b : Bool) (f : Option File) → (remove_found d p b f).0.unreadable ≡ d.unreadable
    removed b none = refl
    removed true (some f) = refl
    removed false (some f) = refl

pub read_file-there :
    (d : Disk) (p : Bytes) {f : File}
    → d.files p ≡ some f
    → d.unreadable p ≡ false
    → read_file d p ≡ ok f.content
unfolding read_file
read_file-there d p h r = rw (h, r)
