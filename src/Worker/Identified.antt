-- ===== src/Worker/Identified.antt =====
-- The link between a connection's client and its client identifier, which every event of main/worker.cpp
-- keeps.
use esp32_mqtts_broker.Prelude.{
  ℕ, zero, suc, ◌≡◌, refl, ◌∙◌, Bool, true, false, not, Option, none, some, List, [], ◌∷◌, set,
}
use esp32_mqtts_broker.Run.{Yields, Yields-map}
use esp32_mqtts_broker.Hashmap.{is_empty}
use esp32_mqtts_broker.Worker.State.{Worker, World, SockCid, Phase, uninit, cell, with_cell}
use esp32_mqtts_broker.Worker.Drop.{drop_conn}
use esp32_mqtts_broker.Worker.Logins.{SameLogins, login, logins, logins-set}
use esp32_mqtts_broker.Worker.Released.{drop_conn-Released}

abbrev pub has_client : Option ℕ → Bool
has_client none = false
has_client (some c) = true

-- a client is there exactly if a client identifier is
abbrev pub Paired : Option ℕ × List ℕ × Phase → Type 0
Paired l = has_client l.0 ≡ not (is_empty l.1)

abbrev pub AllPaired : List (Option ℕ × List ℕ × Phase) → Type 0
AllPaired [] = Unit
AllPaired (l ∷ ls) = Paired l × AllPaired ls

-- On every connection the pointer to the client is null exactly if there is no client identifier.
unfoldable pub IsPaired : Worker → Type 0
IsPaired w = AllPaired (logins w.sock_to_clientid)

AllPaired-set :
    (ls : List (Option ℕ × List ℕ × Phase)) (i : ℕ) (l : Option ℕ × List ℕ × Phase)
    → AllPaired ls
    → Paired l
    → AllPaired (set ls i l)
AllPaired-set [] i l all p = tt
AllPaired-set (x ∷ ls) zero l (a, all) p = (p, all)
AllPaired-set (x ∷ ls) (suc i) l (a, all) p = (a, AllPaired-set ls i l all p)

-- one connection is for a while without its partner
pub AllPaired-set_again :
    (ls : List (Option ℕ × List ℕ × Phase)) (i : ℕ) (m l : Option ℕ × List ℕ × Phase)
    → AllPaired ls
    → Paired l
    → AllPaired (set (set ls i m) i l)
AllPaired-set_again [] i m l all p = tt
AllPaired-set_again (x ∷ ls) zero m l (a, all) p = (p, all)
AllPaired-set_again (x ∷ ls) (suc i) m l (a, all) p = (a, AllPaired-set_again ls i m l all p)

pub SameLogins-IsPaired : (w t : Worker) → IsPaired w → SameLogins w t → IsPaired t
unfolding IsPaired
SameLogins-IsPaired w t all same = rw same all

-- a connection with a partner
pub cell-Paired :
    (cs : List SockCid) (sock : ℕ)
    → AllPaired (logins cs)
    → Yields (cell cs sock) λ sockst. Paired (login sockst)
unfolding cell
cell-Paired [] sock all = tt
cell-Paired (c ∷ cs) zero (p, all) = p
cell-Paired (c ∷ cs) (suc sock) (p, all) = cell-Paired cs sock all

pub with_cell-IsPaired :
    (w : Worker) (sock : ℕ) (sockst : SockCid)
    → IsPaired w
    → Paired (login sockst)
    → IsPaired (with_cell w sock sockst)
unfolding IsPaired
with_cell-IsPaired w sock sockst all p =
    rw (logins-set w.sock_to_clientid sock sockst)
      (AllPaired-set (logins w.sock_to_clientid) sock (login sockst) all p)

module _ (world : World) where
  pub drop_conn-IsPaired :
      (w : Worker) (sock : ℕ) (sendwill : Bool)
      → IsPaired w
      → Yields (drop_conn world w sock sendwill) IsPaired
  unfolding IsPaired
  drop_conn-IsPaired w sock sendwill all =
      Yields-map _ _ (drop_conn world w sock sendwill) (drop_conn-Released world w sock sendwill)
        (λ t e. rw e (AllPaired-set (logins w.sock_to_clientid) sock (none, [], uninit) all refl))

  -- a connection that has an identifier and no client yet is dropped
  pub drop_named :
      (w v : Worker) (sock : ℕ) (named : SockCid)
      → IsPaired w
      → SameLogins (with_cell w sock named) v
      → Yields (drop_conn world v sock true) IsPaired
  unfolding IsPaired
  drop_named w v sock named all same =
      Yields-map _ _ (drop_conn world v sock true) (drop_conn-Released world v sock true) (λ t e.
        let before : logins v.sock_to_clientid
            ≡ set (logins w.sock_to_clientid) sock (login named) =
          same ∙ logins-set w.sock_to_clientid sock named in
        rw (e, before)
          (AllPaired-set_again (logins w.sock_to_clientid) sock (login named) (none, [], uninit) all
            refl))
