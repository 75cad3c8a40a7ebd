-- ===== src/WebhookUrl/Ranges.antt =====
-- guard.go: checkAddr against the list of the ranges that it is to refuse.
use cronlite.Base.{
  ℕ, ◌+◌, ◌*◌, ◌%◌, ◌^◌, ◌<◌, ◌≡◌, refl, ◌↔◌, ◌⊎◌, inl, inr, Bool, true, false, ◌&&◌, ◌||◌, none,
  List, [], ◌∷◌, arith, leb, text_key,
}
use cronlite.WebhookUrl.{v4, v6, check_v4, check_addr, ipv4_translated, nat64_well_known}

-- The number lies in one of the ranges, each given by its first and its last address.
abbrev pub Range : Type 0
Range = ℕ × ℕ

unfoldable pub in_ranges : List Range → ℕ → Bool
in_ranges [] n = false
in_ranges ((first, last) ∷ rs) n = (leb first n && leb n last) || in_ranges rs n

abbrev pub dotted : ℕ → ℕ → ℕ → ℕ → ℕ
dotted a b c d = ((a * 256 + b) * 256 + c) * 256 + d

-- This network, loopback, link-local, carrier-grade NAT, multicast.
abbrev pub never4 : List Range
never4 =
    (dotted 0 0 0 0, dotted 0 255 255 255)
    ∷ (dotted 127 0 0 0, dotted 127 255 255 255)
    ∷ (dotted 169 254 0 0, dotted 169 254 255 255)
    ∷ (dotted 100 64 0 0, dotted 100 127 255 255)
    ∷ (dotted 224 0 0 0, dotted 239 255 255 255)
    ∷ []

-- RFC 1918.
abbrev pub private4 : List Range
private4 =
    (dotted 10 0 0 0, dotted 10 255 255 255)
    ∷ (dotted 172 16 0 0, dotted 172 31 255 255)
    ∷ (dotted 192 168 0 0, dotted 192 168 255 255)
    ∷ []

-- A version 4 address passes the check exactly if it lies in none of the ranges that are always
-- refused (this network, loopback, link-local, carrier-grade NAT, multicast), nor, unless private
-- addresses are allowed, in one of RFC 1918.
pub check_v4-ranges :
    (n : ℕ) (allow_private : Bool)
    → (check_addr (v4 n) allow_private ≡ none)
      ↔ ((in_ranges never4 n ≡ false) × ((allow_private ≡ true) ⊎ (in_ranges private4 n ≡ false)))
unfolding check_addr check_v4 in_ranges
check_v4-ranges n true = (λ h. (ground arith, inl refl), λ h. ground arith)
check_v4-ranges n false = (λ h. (ground arith, inr (ground arith)), λ h. ground arith)

-- The IPv4-mapped, the IPv4-translated and the NAT64 form of an IPv4 address are judged as that
-- address.
pub embedded_forms :
    (n : ℕ) (allow_private : Bool)
    → n < 2 ^ 32
    → (check_addr (v6 (0xffff * 2 ^ 32 + n) "") allow_private ≡ check_addr (v4 n) allow_private)
      × (check_addr (v6 (ipv4_translated * 2 ^ 32 + n) "") allow_private
          ≡ check_addr (v4 n) allow_private)
      × (check_addr (v6 (nat64_well_known * 2 ^ 32 + n) "") allow_private
          ≡ check_addr (v4 n) allow_private)
unfolding check_addr
embedded_forms n allow_private small =
    let low : (k : ℕ) → (k * 2 ^ 32 + n) % 2 ^ 32 ≡ n = λ k. omega arith in
    (
      ground (arith, low 0xffff),
      ground (arith, low ipv4_translated),
      ground (arith, low nat64_well_known),
    )
