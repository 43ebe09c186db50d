-- ===== src/Server/Edge/Order.antt =====
-- src/server.rs: the map of clients is a `HashMap`, whose order is not fixed; when the order in which
-- `check_edge` goes through it matters.
use mathlib.Core.List.{Perm, foldr}
use mathlib.Core.List.Perm
use text.Mathlib.TextEquality.{IsScalar-prop}
use bluecross.Base.{
  ◌≡◌, ◌≢◌, refl, sym, ◌∙◌, ap, Option, none, some, List, [], ◌∷◌, String, ℤ, done,
}
use bluecross.Json.{Json}
use bluecross.Config.{ServerConfig}
use bluecross.Server.State.{ClientInfo, Server}
use bluecross.Server.Edge.{Entry, check_edge}
use bluecross.Server.Edge.Entry.{HasScreen, or_entry, entry_of, first_entry, check_edge-first_entry}

-- How many clients the cursor goes to, with the entry if it is one.
pub data Reached : Type 0 where
  nobody : Reached
  one : Entry → Reached
  several : Reached

abbrev pub reached_too : Option Entry → Reached → Reached
reached_too none r = r
reached_too (some entry) nobody = one entry
reached_too (some entry) _ = several

abbrev pub reached : ServerConfig → ℤ → ℤ → List (String × ClientInfo) → Reached
reached c x y [] = nobody
reached c x y ((name, i) ∷ more) = reached_too (entry_of c x y name i) (reached c x y more)

Reached-set : IsSet Reached
Reached-set = hlevel IsScalar-prop

reached_too_comm :
    (a b : Option Entry) (r : Reached)
    → reached_too a (reached_too b r) ≡ reached_too b (reached_too a r)
reached_too_comm none b r = refl
reached_too_comm (some a) none r = refl
reached_too_comm (some a) (some b) nobody = refl
reached_too_comm (some a) (some b) (one e) = refl
reached_too_comm (some a) (some b) several = refl

module _ (c : ServerConfig) (x y : ℤ) where
  step : String × ClientInfo → Reached → Reached
  step client = reached_too (entry_of c x y client.0 client.1)

  step_comm : (a b : String × ClientInfo) (r : Reached) → step a (step b r) ≡ step b (step a r)
  unfolding step
  step_comm a b r = reached_too_comm (entry_of c x y a.0 a.1) (entry_of c x y b.0 b.1) r

  foldr-step :
      (clients : List (String × ClientInfo)) → reached c x y clients ≡ foldr step nobody clients
  unfolding step
  foldr-step [] = refl
  foldr-step ((name, i) ∷ more) = ap (reached_too (entry_of c x y name i)) (foldr-step more)

  reached-perm :
      {xs ys : List (String × ClientInfo)} → Perm xs ys → reached c x y xs ≡ reached c x y ys
  reached-perm {xs} {ys} p =
      foldr-step xs ∙ Perm.foldr-eq Reached-set step step_comm p nobody ∙ sym (foldr-step ys)

abbrev entry_if : Reached → Option Entry
entry_if nobody = none
entry_if (one entry) = some entry
entry_if several = none

-- One more client, with what is reached of the others.
first_of_two :
    (a later : Option Entry) (r : Reached)
    → (r ≢ several → later ≡ entry_if r)
    → reached_too a r ≢ several
    → or_entry a later ≡ entry_if (reached_too a r)
first_of_two none later r h k = h k
first_of_two (some a) later nobody h k = refl
first_of_two (some a) later (one e) h k = absurd (k refl)
first_of_two (some a) later several h k = absurd (k refl)

first_entry-reached :
    (c : ServerConfig) (x y : ℤ) (clients : List (String × ClientInfo))
    → reached c x y clients ≢ several
    → first_entry c x y clients ≡ entry_if (reached c x y clients)
first_entry-reached c x y [] h = refl
first_entry-reached c x y ((name, i) ∷ more) h =
    first_of_two (entry_of c x y name i) (first_entry c x y more) (reached c x y more)
      (first_entry-reached c x y more) h

-- As long as the cursor touches the edge of no more than one client, the order of the map does not
-- matter: with the same clients in any other order `check_edge` finds the same client and the same
-- point of entry. The server has a screen.
pub check_edge-perm :
    (j : Json) (s : Server j) (clients : List (String × ClientInfo)) (x y : ℤ)
    → HasScreen s.config
    → Perm s.clients clients
    → reached s.config x y s.clients ≢ several
    → check_edge j (record s { clients = clients }) x y ≡ check_edge j s x y
check_edge-perm j s clients x y h p lone =
    let same = reached-perm s.config x y p in
    check_edge-first_entry j (record s { clients = clients }) x y h
    ∙ ap done (
        first_entry-reached s.config x y clients (λ e. lone (same ∙ e))
        ∙ ap entry_if (sym same)
        ∙ sym (first_entry-reached s.config x y s.clients lone))
    ∙ sym (check_edge-first_entry j s x y h)
