-- ===== src/Rootless/ServerAddr.antt =====
-- Which tunnel addresses `Unlock` of contrib/rootless/rootless.go can dial.
use tool_public_ubo.Base.{
  ℕ, ◌≤◌, ◌≡◌, ◌≢◌, refl, Bool, true, false, ◌&&◌, ◌||◌, not, [], ◌∷◌, ◌++◌, ltb, ◌==◌,
  if◌then◌else◌, none, some, Lacks, All-map, arith,
}
use tool_public_ubo.Base.Int.{pos}
use tool_public_ubo.Net.Address.{Address, parse_addr}
use tool_public_ubo.Rootless.Address.{cut_last, unbracket, AddrPort, parse_addr_port, server_addr}
use tool_public_ubo.Text.Compare.{Bytes}
use tool_public_ubo.Text.Decimal.{itoa, show_ℕ, read-show, show_ℕ-IsDigit}

cut_last-Lacks : (b : ℕ) (r : Bytes) → Lacks b r → cut_last b r ≡ none
unfolding cut_last
cut_last-Lacks b [] h = refl
cut_last-Lacks b (c ∷ r) h =
    let other : (c == b) ≡ false = ground arith in rw (cut_last-Lacks b r h.1, other) refl

cut_last-append : (b : ℕ) (l r : Bytes) → Lacks b r → cut_last b (l ++ b ∷ r) ≡ some (l, r)
unfolding cut_last
cut_last-append b [] r h =
    let same : (b == b) ≡ true = ground arith in rw (cut_last-Lacks b r h, same) refl
cut_last-append b (c ∷ l) r h = rw (cut_last-append b l r h) refl

digits-Lacks : (n : ℕ) → Lacks b':' (show_ℕ n)
digits-Lacks n = All-map (λ c d. ground arith) (show_ℕ n) (show_ℕ-IsDigit n)

unbracket-plain : (s : Bytes) → s ≢ [] → Lacks b'[' s → unbracket s ≡ some (s, false)
unfolding unbracket
unbracket-plain [] some_text h = absurd (some_text refl)
unbracket-plain (c ∷ s) some_text h =
    let other : (c == b'[') ≡ false = ground arith in rw other refl

parsed-ne-nil : (ip : Bytes) {a : Address} → parse_addr ip ≡ some a → ip ≢ []
unfolding parse_addr
parsed-ne-nil [] h = absurd cc
parsed-ne-nil (c ∷ s) h = cc

abbrev pub target : Address → ℕ → AddrPort
target a n = record { address = a; port = n }

-- `Unlock` can dial the tunnel address exactly if it is an IPv4 one: the text that it makes of the
-- address and the port has no brackets, which `netip.ParseAddrPort` asks for around an IPv6 address.
pub server_addr_lem :
    (ip : Bytes) (n : ℕ) (a : Address)
    → parse_addr ip ≡ some a
    → Lacks b'[' ip
    → n ≤ 65535
    → server_addr ip (pos n) ≡ (if a.is_4 then some (target a n) else none)
unfolding server_addr parse_addr_port itoa
server_addr_lem ip n a h plain small =
    let fits : ltb 65535 n ≡ false = ground arith in
    rw
      (
        cut_last-append b':' ip (show_ℕ n) (digits-Lacks n),
        unbracket-plain ip (parsed-ne-nil ip h) plain,
        read-show n,
        h,
        fits,
      )
      (by_kind a.is_4)
  where
    by_kind :
        (four : Bool)
        → (if false || (false && four) || (not false && not four) then none else some (target a n))
          ≡ (if four then some (target a n) else none)
    by_kind true = refl
    by_kind false = refl
