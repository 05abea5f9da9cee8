-- ===== src/Http/Owners.antt =====
-- Which tickets the routes of server/internal/httpapi/tickets.go show to whom.
use mathlib.Core.List.{reverse, reverse_aux}
use yusui.Prelude.{
  ℕ, ◌≡◌, refl, sym, ap, ◌∙◌, Bool, true, false, not, ◌&&◌, ◌||◌, Option, none, some, List, [], ◌∷◌,
  inl, inr, Option-cases, Bool-cases, ◌==◌, if◌then◌else◌, All, All-map-imp, select, arith, ==→eq,
  ◌≢◌,
}
use yusui.Exec.{Result, ok, err}
use yusui.Exec.After.{After, After-imp, After-all, After-if, After-ok}
use yusui.Store.Rows.{YusuiTicket, UserRole, requester, approver, admin}
use yusui.Store.Conn.{Conn}
use yusui.Store.Laws.{After-query}
use yusui.Store.Tickets.{list_tickets, list_tickets_by_requester}
use yusui.Policy.World.{Engine, World, on_db}
use yusui.Policy.Outcomes.{on_db-After}
use yusui.Auth.Jwt.{Jwt, Manager}
use yusui.Auth.Guards.{reply, refuse, Handler, Principal, same_role, caller, admit, authenticator}
use yusui.Http.Tickets.{list_handler, list_route, get_handler, get_route, shown, clock}
use yusui.Http.Admission.{refuse-reply, answer_of-ok}

-- A requester sees tickets of his own alone.
pub Own : Principal → YusuiTicket → Type 0
Own p t = p.role ≡ requester → t.requester_id ≡ p.user_id

module _ {W A T : Type 0} (j : Jwt T) (m : Manager) (now_of : W → ℕ) (bearer : Option T)
    (next : Principal → Handler W A) (w : W) where
  -- An answer with a body goes to the principal of a valid token.
  pub authenticator-reply :
      (s : ℕ) (a : A)
      → (authenticator j m now_of bearer next w).0 ≡ reply s a
      → (p : Principal) × (caller j m (now_of w) bearer ≡ some p) × ((next p w).0 ≡ reply s a)
  unfolding authenticator
  authenticator-reply s a h = elim (Option-cases (caller j m (now_of w) bearer)) [
    | inl nobody ↦ absurd (refuse-reply _ _ _ _ (sym (answers nobody) ∙ h))
    | inr (p, known) ↦ (p, known, sym (answers known) ∙ h)
  ]
    where
      answers :
          {o : Option Principal}
          → caller j m (now_of w) bearer ≡ o
          → (authenticator j m now_of bearer next w).0 ≡ (admit o next w).0
      answers known = ap (λ o. (admit o next w).0) known

module _ {A : Type 0} (P : A → Type 0) where
  reverse_aux-All : (xs ys : List A) → All P xs → All P ys → All P (reverse_aux xs ys)
  reverse_aux-All [] ys h k = k
  reverse_aux-All (x ∷ xs) ys h k = reverse_aux-All xs (x ∷ ys) h.1 (h.0, k)

  reverse-All : (xs : List A) → All P xs → All P (reverse xs)
  reverse-All xs h = reverse_aux-All xs [] h tt

  All-any : (xs : List A) → ((a : A) → P a) → All P xs
  All-any [] h = tt
  All-any (x ∷ xs) h = (h x, All-any xs h)

select-requester :
    (id : ℕ) (ts : List YusuiTicket)
    → All (λ t. t.requester_id ≡ id) (select (λ t. t.requester_id == id) ts)
select-requester id [] = tt
select-requester id (t ∷ ts) = elim (Bool-cases (t.requester_id == id)) [
  | inl same ↦ rw same (==→eq t.requester_id id same, select-requester id ts)
  | inr other ↦ rw other (select-requester id ts)
]

list_by-After :
    (id : ℕ) (c : Conn)
    → After (λ ts _. All (λ t. t.requester_id ≡ id) ts) (list_tickets_by_requester id) c
unfolding list_tickets_by_requester
list_by-After id c =
    After-query
      (record { holds = reverse-All _ (select _ c.tickets) (select-requester id c.tickets) })

-- Who is no requester is an approver or an admin.
reviewer-same_role :
    (r : UserRole) → (same_role r admin || same_role r approver) ≡ true → r ≢ requester
reviewer-same_role requester h p = grind (arith, h)
reviewer-same_role approver h p = cc
reviewer-same_role admin h p = cc

module _ {G S : Type 0} (e : Engine G S) where
  list-After :
      (p : Principal) (w : World G S) (b : Bool)
      → (b ≡ true → p.role ≢ requester)
      → After
          (λ ts _. All (Own p) ts)
          (if b
            then on_db {G = G} {S = S} list_tickets
            else on_db (list_tickets_by_requester p.user_id))
          w
  unfolding Own
  list-After p w b other =
      After-if b
        (λ all. After-all _ w (λ ts. All-any (Own p) ts (λ t role. absurd (other all role))))
        (λ _.
          After-imp (λ ts _ h. All-map-imp _ _ (λ t same _. same) ts h.0)
            (on_db-After (list_by-After p.user_id w.conn)))

  list_handler-Own :
      (p : Principal) (w : World G S) (s : ℕ) (ts : List YusuiTicket)
      → (list_handler e p w).0 ≡ reply s ts
      → All (Own p) ts
  unfolding list_handler
  list_handler-Own p w s ts h =
      After-ok (list-After p w _ (reviewer-same_role p.role)) ts (answer_of-ok _ _ _ _ h)

  shown_row-Own :
      (p : Principal) (u : YusuiTicket) (s : ℕ) (t : YusuiTicket)
      → p.role ≡ requester
      → (mine : Bool) → (u.requester_id == p.user_id) ≡ mine
      → (if same_role p.role requester && not mine
          then refuse 403 "forbidden_not_owner"
          else reply 200 u)
        ≡ reply s t
      → t.requester_id ≡ p.user_id
  shown_row-Own p u s t role true same h = cc (rw role at h, ==→eq u.requester_id p.user_id same)
  shown_row-Own p u s t role false other h = absurd (refuse-reply _ _ _ _ (rw role at h))

  shown-Own :
      (p : Principal) (r : Result YusuiTicket) (s : ℕ) (t : YusuiTicket)
      → shown e p r ≡ reply s t
      → Own p t
  unfolding Own
  shown-Own p (ok u) s t h role = shown_row-Own p u s t role _ refl h
  shown-Own p (err x) s t h role = absurd (refuse-reply _ _ _ _ h)

module _ {G S T : Type 0} (e : Engine G S) (j : Jwt T) (m : Manager) (window : ℕ)
    (bearer : Option T) where
  get_handler-Own :
      (oid : Option ℕ) (p : Principal) (w : World G S) (s : ℕ) (t : YusuiTicket)
      → (get_handler e oid p w).0 ≡ reply s t
      → Own p t
  unfolding get_handler
  get_handler-Own none p w s t h = absurd (refuse-reply _ _ _ _ h)
  get_handler-Own (some id) p w s t h = shown-Own e p _ s t h

  -- The list route answers the principal of a valid token, and a requester gets tickets of his own
  -- alone.
  pub list_route-Own :
      (w : World G S) (s : ℕ) (ts : List YusuiTicket)
      → (list_route e j m window bearer w).0 ≡ reply s ts
      → (p : Principal) × (caller j m w.conn.now bearer ≡ some p) × All (Own p) ts
  unfolding list_route
  list_route-Own w s ts h =
      let (p, known, r) = authenticator-reply j m (clock e) bearer (list_handler e) w s ts h in
      (p, known, list_handler-Own e p w s ts r)

  -- The get route answers the principal of a valid token, and a requester gets a ticket of his own
  -- alone.
  pub get_route-Own :
      (oid : Option ℕ) (w : World G S) (s : ℕ) (t : YusuiTicket)
      → (get_route e j m window bearer oid w).0 ≡ reply s t
      → (p : Principal) × (caller j m w.conn.now bearer ≡ some p) × Own p t
  unfolding get_route
  get_route-Own oid w s t h =
      let (p, known, r) = authenticator-reply j m (clock e) bearer (get_handler e oid) w s t h in
      (p, known, get_handler-Own oid p w s t r)
