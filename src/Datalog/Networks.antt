-- ===== src/Datalog/Networks.antt =====
-- congress/datalog/builtin.py: `networks_overlap` of `NetworkAddressBuiltins`. A network of the
-- netaddr library is read through its first and last address.
use congress.Prelude.{
  ℕ, ◌≤◌, ◌<◌, ◌≡◌, ◌↔◌, inl, inr, Bool, true, ◌&&◌, ◌||◌, leb, arith, Bool-cases, dec_lt,
}

pub record IpNetwork : Type 0 where
  pub first : ℕ
  pub last : ℕ

unfoldable pub networks_overlap : IpNetwork → IpNetwork → Bool
networks_overlap a b =
    (leb a.first b.first && leb b.first a.last) || (leb a.first b.last && leb b.last a.last)

-- an address in both
abbrev pub Common : IpNetwork → IpNetwork → Type 0
Common a b = (x : ℕ) × (a.first ≤ x) × (x ≤ a.last) × (b.first ≤ x) × (x ≤ b.last)

Common-address : (a b : IpNetwork) → b.first ≤ b.last → networks_overlap a b ≡ true → Common a b
unfolding networks_overlap
Common-address a b ne h = elim (Bool-cases (leb a.first b.first && leb b.first a.last)) [
  | inl e ↦ (b.first, ground arith, ground arith, ground arith, ground arith)
  | inr e ↦ (b.last, ground arith, ground arith, ground arith, ground arith)
]

not_inside :
    (a b : IpNetwork)
    → a.first ≤ a.last
    → networks_overlap a b ≡ true
    → ¬ ((b.first < a.first) × (a.last < b.last))
unfolding networks_overlap
not_inside a b ne h (l, r) = ground arith

overlap_of_Common :
    (a b : IpNetwork)
    → Common a b
    → ¬ ((b.first < a.first) × (a.last < b.last))
    → networks_overlap a b ≡ true
unfolding networks_overlap
overlap_of_Common a b c h = elim (dec_lt b.first a.first) [
  | yes l ↦ elim (dec_lt a.last b.last) [ yes r ↦ absurd (h (l, r)) | no r ↦ ground arith ]
  | no l ↦ ground arith
]

-- For networks that are not empty the answer is yes exactly where some address lies in both and
-- the second does not go beyond the first on both sides: a first network strictly inside the
-- second is missed, though its addresses are common.
pub networks_overlap_iff :
    (a b : IpNetwork)
    → a.first ≤ a.last
    → b.first ≤ b.last
    → (networks_overlap a b ≡ true) ↔ (Common a b × (¬ ((b.first < a.first) × (a.last < b.last))))
networks_overlap_iff a b na nb =
    (λ h. (Common-address a b nb h, not_inside a b na h), λ c. overlap_of_Common a b c.0 c.1)
