-- ===== src/Templates/Render.antt =====
-- Templates as text/template renders them, for templates of texts and fields only.
use tool_public_ubo.Base.{
  ℕ, zero, suc, ◌≡◌, refl, sym, ap, ◌∙◌, Bool, true, ◌||◌, List, [], ◌∷◌, ◌++◌, ◌==◌, within,
  if◌then◌else◌, All, arith,
}
use tool_public_ubo.Text.Compare.{Bytes}

pub data Part {ℓ} (F : Type ℓ) : Type ℓ where
  text : Bytes → Part F
  hole : F → Part F

-- The horizontal bar U+2500, several times, and the dash U+2014.
abbrev pub rule : ℕ → Bytes
rule zero = []
rule (suc n) = 0xE2 ∷ 0x94 ∷ 0x80 ∷ rule n

abbrev pub dash : Bytes
dash = 0xE2 ∷ 0x80 ∷ 0x94 ∷ []

unfoldable pub render {ℓ} : {F : Type ℓ} → (F → Bytes) → List (Part F) → Bytes
render value [] = []
render value (text s ∷ parts) = s ++ render value parts
render value (hole f ∷ parts) = value f ++ render value parts

-- A letter, a digit, or one of `+ - . / : = _`: no character means anything to a shell, in quotes or not.
unfoldable pub is_plain : ℕ → Bool
is_plain c =
    within b'A' b'Z' c
    || (within b'a' b'z' c || (within b'-' b':' c || (c == b'+' || (c == b'=' || c == b'_'))))

abbrev pub IsPlain : ℕ → Type 0
IsPlain c = is_plain c ≡ true

-- The other characters of a text, in their order.
unfoldable pub skeleton : Bytes → Bytes
skeleton [] = []
skeleton (c ∷ s) = let rest = skeleton s in if is_plain c then rest else c ∷ rest

skeleton-append : (s t : Bytes) → skeleton (s ++ t) ≡ skeleton s ++ skeleton t
unfolding skeleton
skeleton-append [] t = refl
skeleton-append (c ∷ s) t = ground (arith, skeleton-append s t)

skeleton-All : (s : Bytes) → All IsPlain s → skeleton s ≡ []
unfolding skeleton
skeleton-All [] h = refl
skeleton-All (c ∷ s) (hc, h) = rw hc (skeleton-All s h)

-- Fields of plain characters add nothing to the skeleton of a template.
pub skeleton-render {ℓ} :
    {F : Type ℓ} (value : F → Bytes) (parts : List (Part F))
    → ((f : F) → All IsPlain (value f))
    → skeleton (render value parts) ≡ skeleton (render (λ _. []) parts)
unfolding render
skeleton-render value [] h = refl
skeleton-render value (text s ∷ parts) h =
    skeleton-append s _
    ∙ ap (◌++◌ (skeleton s)) (skeleton-render value parts h)
    ∙ sym (skeleton-append s _)
skeleton-render value (hole f ∷ parts) h =
    skeleton-append (value f) _
    ∙ ap (λ (s : Bytes). s ++ skeleton (render value parts)) (skeleton-All (value f) (h f))
    ∙ skeleton-render value parts h
