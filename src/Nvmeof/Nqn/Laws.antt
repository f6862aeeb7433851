-- ===== src/Nvmeof/Nqn/Laws.antt =====
-- Which texts are parsed as an NQN, and that its text is read back.
use linstor_gateway.Base.{◌≡◌, refl, ◌↔◌, false, List, [], ◌∷◌, ◌++◌}
use linstor_gateway.Base.Outcome.{ok}
use linstor_gateway.Base.Text.{
  Text, codes, split, split-append, split_whole, split-NoByte, NoByte, has_byte, join,
}
use linstor_gateway.Base.Text.Laws.{join-split}
use linstor_gateway.Nvmeof.Nqn.{Nqn, parts_of, new_nqn, nqn_string}

-- `s` has three parts between colons: the vendor, any middle part and the subsystem.
pub record HasParts (s : Text) (n : Nqn) : Type 0 where
  pub middle : Text
  pub text_is : s ≡ n.vendor ++ (b':' ∷ (middle ++ (b':' ∷ n.subsystem)))
  pub vendor_plain : has_byte b':' n.vendor ≡ false
  pub middle_plain : has_byte b':' middle ≡ false
  pub subsystem_plain : has_byte b':' n.subsystem ≡ false

new_nqn_of_parts : (s : Text) (n : Nqn) → HasParts s n → new_nqn s ≡ ok n
unfolding new_nqn
new_nqn_of_parts s n h = rw (
  h.text_is,
  split-append b':' n.vendor (h.middle ++ (b':' ∷ n.subsystem)) h.vendor_plain,
  split-append b':' h.middle n.subsystem h.middle_plain,
  split_whole b':' n.subsystem h.subsystem_plain,
)

parts_of_lem :
    (ws : List Text) (n : Nqn) → parts_of ws ≡ ok n → NoByte b':' ws → HasParts (join b':' ws) n
unfolding parts_of join
parts_of_lem [] n h p = cc
parts_of_lem (a ∷ []) n h p = cc
parts_of_lem (a ∷ b ∷ []) n h p = cc
parts_of_lem (a ∷ b ∷ c ∷ []) n h p =
    let e : n ≡ record { vendor = a; subsystem = c } = cc in
    rw e (record {
      middle = b;
      text_is = refl;
      vendor_plain = p.0;
      middle_plain = p.1.0;
      subsystem_plain = p.1.1.0;
    })
parts_of_lem (a ∷ b ∷ c ∷ d ∷ ws) n h p = cc

-- A text is parsed as an NQN exactly if it is a vendor, a middle part and a subsystem, with no
-- colon in any, joined by colons; the middle part may be any text, not `nvme` alone.
pub new_nqn_iff : (s : Text) (n : Nqn) → (new_nqn s ≡ ok n) ↔ HasParts s n
unfolding new_nqn
new_nqn_iff s n = (
  λ h. rw join-split at (parts_of_lem (split b':' s) n h (split-NoByte b':' s)),
  new_nqn_of_parts s n,
)

-- The text of an NQN whose two parts hold no colon is parsed as that NQN.
pub new_nqn-nqn_string :
    (n : Nqn)
    → has_byte b':' n.vendor ≡ false
    → has_byte b':' n.subsystem ≡ false
    → new_nqn (nqn_string n) ≡ ok n
unfolding nqn_string
new_nqn-nqn_string n h k = new_nqn_of_parts (nqn_string n) n (record {
  middle = codes "nvme";
  text_is = refl;
  vendor_plain = h;
  middle_plain = refl;
  subsystem_plain = k;
})
