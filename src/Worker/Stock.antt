-- ===== src/Worker/Stock.antt =====
-- The clients of main/worker.cpp: which pointers the client store holds, and which clients are there.
use esp32_mqtts_broker.Prelude.{
  ℕ, zero, suc, ◌+◌, ◌≤◌, ◌≡◌, refl, sym, subst, ap, ◌∙◌, Bool, true, false, Option, none, some,
  List, [], ◌∷◌, ◌++◌, arith, ◌==◌, if◌then◌else◌, length, set, length-set,
}
use esp32_mqtts_broker.Run.{ok}
use esp32_mqtts_broker.Hashmap.{Hashmap, get}
use esp32_mqtts_broker.Hashmap.Lookup.{entries}
use esp32_mqtts_broker.Hashmap.Holders.{one_if, holders, get-holders}
use esp32_mqtts_broker.Client.{Client}
use esp32_mqtts_broker.Worker.State.{Worker, SockCid, deref, with_cell, with_client}
use esp32_mqtts_broker.Worker.Logins.{Core, Same, logins, lives}

-- 1 for a client that is there, 0 for one that is deleted or was never made
abbrev pub alive : ℕ → List Bool → ℕ
alive c [] = 0
alive zero (b ∷ bs) = one_if b
alive (suc c) (b ∷ bs) = alive c bs

-- There are `n` connections. A client is in the client store once at most, and not at all when it
-- is deleted.
pub record IsOwned (n : ℕ) (w : Worker) : Type 0 where
  pub cells : length w.sock_to_clientid ≡ n
  pub owned : (c : ℕ) → holders c (entries w.client_store) ≤ alive c (lives w.clients)

-- what `IsOwned` is about
pub record Stock : Type 0 where
  pub count : ℕ
  pub stored : Hashmap ℕ
  pub living : List Bool

abbrev pub stock : Worker → Stock
stock w = record {
  count = length w.sock_to_clientid;
  stored = w.client_store;
  living = lives w.clients;
}

abbrev pub SameStock : Worker → Worker → Type 0
SameStock w t = stock t ≡ stock w

pub SameStock-IsOwned : (n : ℕ) (w t : Worker) → IsOwned n w → SameStock w t → IsOwned n t
SameStock-IsOwned n w t o same = record {
  cells = ap (λ (s : Stock). s.count) same ∙ o.cells;
  owned =
      subst (λ (s : Stock). (c : ℕ) → holders c (entries s.stored) ≤ alive c s.living) (sym same)
        o.owned;
}

length-logins : (cs : List SockCid) → length (logins cs) ≡ length cs
length-logins [] = refl
length-logins (c ∷ cs) = ap suc (length-logins cs)

pub Same-SameStock : (w t : Worker) → Same w t → SameStock w t
Same-SameStock w t same =
    let counts =
      λ (u : Worker). ap (λ k. record (stock u) { count = k }) (length-logins u.sock_to_clientid) in
    sym (counts t)
    ∙ ap
        (λ (c : Core).
          let s : Stock = record {
            count = length c.logged;
            stored = c.stored;
            living = c.living;
          } in
          s)
        same
    ∙ counts w

pub with_cell-SameStock :
    (w : Worker) (sock : ℕ) (sockst : SockCid) → SameStock w (with_cell w sock sockst)
with_cell-SameStock w sock sockst =
    ap (λ k. record (stock w) { count = k }) (length-set w.sock_to_clientid sock sockst)

pub with_client-SameStock :
    (w : Worker) (c : ℕ) (client : Client)
    → lives (set w.clients c (some client)) ≡ lives w.clients
    → SameStock w (with_client w c client)
with_client-SameStock w c client kept = ap (λ l. record (stock w) { living = l }) kept

pub alive-le-one : (c : ℕ) (bs : List Bool) → alive c bs ≤ 1
alive-le-one c [] = omega arith
alive-le-one zero (true ∷ bs) = omega arith
alive-le-one zero (false ∷ bs) = omega arith
alive-le-one (suc c) (b ∷ bs) = alive-le-one c bs

-- a client is deleted
pub alive-set-none :
    (d c : ℕ) (cs : List (Option Client))
    → alive d (lives (set cs c none)) ≡ (if c == d then 0 else alive d (lives cs))
alive-set-none d c [] = ground arith
alive-set-none zero zero (x ∷ cs) = ground arith
alive-set-none (suc d) zero (x ∷ cs) = ground arith
alive-set-none zero (suc c) (x ∷ cs) = ground arith
alive-set-none (suc d) (suc c) (x ∷ cs) = ground (arith, alive-set-none d c cs)

-- a client is made
pub alive-append :
    (d : ℕ) (cs : List (Option Client)) (client : Client)
    → alive d (lives (cs ++ some client ∷ [])) ≡ alive d (lives cs) + one_if (length cs == d)
alive-append zero [] client = refl
alive-append (suc d) [] client = ground arith
alive-append zero (x ∷ cs) client = ground arith
alive-append (suc d) (x ∷ cs) client = ground (arith, alive-append d cs client)

deref-alive :
    (cs : List (Option Client)) (c : ℕ)
    → 1 ≤ alive c (lives cs)
    → (client : Client) × (deref cs c ≡ ok client)
unfolding deref
deref-alive [] c h = absurd (omega arith)
deref-alive (none ∷ cs) zero h = absurd (omega arith)
deref-alive (some client ∷ cs) zero h = (client, refl)
deref-alive (none ∷ cs) (suc c) h = deref-alive cs c h
deref-alive (some x ∷ cs) (suc c) h = deref-alive cs c h

-- what the client store finds can be used
pub IsOwned-deref :
    (n : ℕ) (w : Worker) (key : List ℕ) (c : ℕ)
    → IsOwned n w
    → get w.client_store key ≡ ok (some c)
    → (client : Client) × (deref w.clients c ≡ ok client)
IsOwned-deref n w key c o e =
    deref-alive w.clients c (omega (arith, get-holders c w.client_store key e, o.owned c))
