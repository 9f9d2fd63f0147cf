-- ===== src/OefFunctions/InitialHandshake/Live.antt =====
-- Endpoints that log in and go away, in any order, and who is found in the directory meanwhile.
use oef_mt_core.Base.{
  ℕ, ◌≡◌, ◌≢◌, refl, sym, ap, subst, ◌∙◌, ◌⊎◌, inl, inr, Bool, true, false, List, Option, none,
  some, arith, if◌then◌else◌, ◌==◌, ==_iff, Bool-cases,
}
use oef_mt_core.Base.Int.{ℤ}
use oef_mt_core.Karma.BucketsOf.{Name, same, find}
use oef_mt_core.Karma.BucketsOf.Laws.{same_refl, same-eq}
use oef_mt_core.Agents.{Agent, remove}
use oef_mt_core.Agents.Laws.{find-add, find-remove}
use oef_mt_core.OefFunctions.InitialHandshake.{
  HandshakeState, Factory, initial_handshake, oef_functions, Endpoint, World, Outcome, returns,
  lost, process_message, endpoint_closed, closed_by,
}
use oef_mt_core.Karma.KarmaPolicyBasic.{Result, ok, throws, undefined}
use oef_mt_core.Karma.KarmaAccount.{perform}
use oef_mt_core.OefFunctions.InitialHandshake.Login.{
  Handled, Lost, IsHandled, lost-Lost, process_message-Handled,
}

abbrev pub put_endpoint : ℕ → Endpoint → (ℕ → Endpoint) → ℕ → Endpoint
put_endpoint i e endpoints j = if j == i then e else endpoints j

pub record System : Type 0 where
  pub endpoints : ℕ → Endpoint
  pub world : World

abbrev pub after : ℕ → System → Endpoint × World × Outcome → System
after i s (e, w, o) = record { endpoints = put_endpoint i e s.endpoints; world = w }

-- An endpoint is told from others by its number, and who is found under a name is an endpoint that
-- is logged in under that name.
unfoldable pub IsLive : System → Type 0
IsLive s =
    ((i : ℕ) → (s.endpoints i).ident ≡ i)
    × ((n : Name) (a : Agent)
        → find n s.world.agents ≡ some a
        → (a.key ≡ n) × ((s.endpoints a.endpoint).factory ≡ some (oef_functions n)))

module _ (stoi : List ℕ → Option ℤ) (read_id : List ℕ → Option Name)
    (read_answer : List ℕ → Option Bool) (anonymous : Name) where
  -- A message to an endpoint in the handshake whose login is not refused, or the end of a connection.
  pub data Step : System → System → Type 0 where
    message :
        {s : System} (i : ℕ) (h : HandshakeState) (key : Name) (data_ : List ℕ)
        → (s.endpoints i).factory ≡ some (initial_handshake h key)
        → IsHandled
            (process_message stoi read_id read_answer anonymous h key data_
              (s.endpoints i)
              s.world).2
        → Step s (
            after i s (
              process_message stoi read_id read_answer anonymous h key data_
                (s.endpoints i)
                s.world))
    end :
        {s : System} (i : ℕ) (action : Name)
        → Step s (after i s (lost stoi action (s.endpoints i) s.world))

  pub data Run : System → System → Type 0 where
    done : {s : System} → Run s s
    next : {s t u : System} → Step s t → Run t u → Run s u

-- A property of one endpoint after another was put in its place, or not.
put_endpoint_lem :
    (P : Endpoint → Type 0) (i j : ℕ) (e : Endpoint) (endpoints : ℕ → Endpoint)
    → (j ≡ i → P e)
    → (¬ (j ≡ i) → P (endpoints j))
    → P (put_endpoint i e endpoints j)
put_endpoint_lem P i j e endpoints here there = elim (Bool-cases (j == i)) [
  | inl t ↦ subst (λ c. P (if c then e else endpoints j)) (sym t) (here ((==_iff j i).0 t))
  | inr f ↦
      subst (λ c. P (if c then e else endpoints j)) (sym f) (there (λ h. ground (arith, f, h)))
]

idents_kept :
    (i : ℕ) (e : Endpoint) (endpoints : ℕ → Endpoint)
    → ((j : ℕ) → (endpoints j).ident ≡ j)
    → e.ident ≡ (endpoints i).ident
    → (j : ℕ) → (put_endpoint i e endpoints j).ident ≡ j
idents_kept i e endpoints idents h j =
    put_endpoint_lem (λ x. x.ident ≡ j) i j e endpoints (λ t. h ∙ idents i ∙ sym t) (λ f. idents j)

-- Another endpoint than one in the handshake is logged in.
others_kept :
    (i j : ℕ) (e : Endpoint) (endpoints : ℕ → Endpoint) (h : HandshakeState) (key n : Name)
    → (endpoints i).factory ≡ some (initial_handshake h key)
    → (endpoints j).factory ≡ some (oef_functions n)
    → (put_endpoint i e endpoints j).factory ≡ some (oef_functions n)
others_kept i j e endpoints h key n shaking on =
    put_endpoint_lem (λ x. x.factory ≡ some (oef_functions n)) i j e endpoints
      (λ t.
        let both = sym shaking ∙ ap (λ k. (endpoints k).factory) (sym t) ∙ on in
        absurd (grind arith))
      (λ f. on)

entered :
    (t : Bool) (n key : Name) (i : ℕ) (a : Agent) (o : Option Agent)
    → same n key ≡ t
    → (if t then some (record { key = key; endpoint = i }) else o) ≡ some a
    → ((n ≡ key) × (a.key ≡ key) × (a.endpoint ≡ i)) ⊎ (o ≡ some a)
entered true n key i a o s h = inl (same-eq n key s, grind arith, grind arith)
entered false n key i a o s h = inr h

left :
    (t : Bool) (n key : Name) (a : Agent) (o : Option Agent)
    → same n key ≡ t
    → (if t then none else o) ≡ some a
    → (¬ (n ≡ key)) × (o ≡ some a)
left true n key a o s h = absurd (grind arith)
left false n key a o s h = ((λ e. absurd (grind (arith, s, sym (same_refl n) ∙ ap (same n) e))), h)

message-IsLive :
    (s : System) (i : ℕ) (h : HandshakeState) (key : Name) (t : Endpoint × World × Outcome)
    → IsLive s
    → (s.endpoints i).factory ≡ some (initial_handshake h key)
    → Handled key (s.endpoints i) s.world t
    → IsLive (after i s t)
unfolding IsLive Handled
message-IsLive s i h key (e, w, o) (idents, live) shaking (same_ident, inl (stays, on)) = (
  idents_kept i e s.endpoints idents same_ident,
  λ n a found.
      let (named, was) = live n a (sym (ap (find n) stays) ∙ found) in
      (named, others_kept i a.endpoint e s.endpoints h key n shaking was),
)
message-IsLive s i h key (e, w, o) (idents, live) shaking (same_ident, inr (stays, on)) = (
  idents_kept i e s.endpoints idents same_ident,
  λ n a found.
      let now =
        sym (ap (find n) stays ∙ find-add n key (s.endpoints i).ident s.world.agents) ∙ found in
      elim (entered (same n key) n key (s.endpoints i).ident a (find n s.world.agents) refl now) [
        | inl (is_key, named, at) ↦ (
          named ∙ sym is_key,
          put_endpoint_lem (λ x. x.factory ≡ some (oef_functions n)) i a.endpoint e s.endpoints
              (λ t. on ∙ ap (λ k. some (oef_functions k)) (sym is_key))
              (λ f. absurd (f (at ∙ idents i))),
        )
        | inr before ↦
            let (named, was) = live n a before in
            (named, others_kept i a.endpoint e s.endpoints h key n shaking was)
      ],
)

end-IsLive :
    (s : System) (i : ℕ) (t : Endpoint × World × Outcome)
    → IsLive s
    → Lost (s.endpoints i) s.world t
    → IsLive (after i s t)
unfolding IsLive Lost
end-IsLive s i (e, w, o) (idents, live) (same_ident, inl (stays, on)) = (
  idents_kept i e s.endpoints idents same_ident,
  λ n a found.
      let (named, was) = live n a (sym (ap (find n) stays) ∙ found) in
      (
        named,
        put_endpoint_lem (λ x. x.factory ≡ some (oef_functions n)) i a.endpoint e s.endpoints
            (λ t. on ∙ ap (λ k. (s.endpoints k).factory) (sym t) ∙ was) (λ f. was),
      ),
)
end-IsLive s i (e, w, o) (idents, live) (same_ident, inr (inl (stays, (h, key, shaking)))) = (
  idents_kept i e s.endpoints idents same_ident,
  λ n a found.
      let (named, was) = live n a (sym (ap (find n) stays) ∙ found) in
      (named, others_kept i a.endpoint e s.endpoints h key n shaking was),
)
end-IsLive s i (e, w, o) (idents, live) (same_ident, inr (inr (k, on, stays, reset))) = (
  idents_kept i e s.endpoints idents same_ident,
  λ n a found.
      let now = sym (ap (find n) stays ∙ find-remove n k s.world.agents) ∙ found in
      let (other, before) = left (same n k) n k a (find n s.world.agents) refl now in
      let (named, was) = live n a before in
      (
        named,
        put_endpoint_lem (λ x. x.factory ≡ some (oef_functions n)) i a.endpoint e s.endpoints
            (λ t.
              let both = sym on ∙ ap (λ j. (s.endpoints j).factory) (sym t) ∙ was in
              absurd (other (grind arith)))
            (λ f. was),
      ),
)

module _ (stoi : List ℕ → Option ℤ) (read_id : List ℕ → Option Name)
    (read_answer : List ℕ → Option Bool) (anonymous : Name) where
  Step-IsLive : {s t : System} → Step stoi read_id read_answer anonymous s t → IsLive s → IsLive t
  unfolding IsLive
  Step-IsLive {s = s} (Step.message i h key data_ shaking handled) live =
      message-IsLive s i h key _ live shaking (
        process_message-Handled stoi read_id read_answer anonymous h key data_ (s.endpoints i)
          s.world shaking handled)
  Step-IsLive {s = s} (Step.end i action) live =
      end-IsLive s i _ live (lost-Lost stoi action (s.endpoints i) s.world)

  -- Whatever messages of handshakes arrive and whichever connections end, in any order: as long as no
  -- login is refused, the endpoints keep their numbers and who is found under a name is an endpoint that
  -- is logged in under that name, if this is so at the start.
  pub Run-IsLive : {s t : System} → Run stoi read_id read_answer anonymous s t → IsLive s → IsLive t
  Run-IsLive Run.done live = live
  Run-IsLive (Run.next step more) live = Run-IsLive more (Step-IsLive step live)

cleared_lem :
    (stoi : List ℕ → Option ℤ) (key : Name) (e : Endpoint) (w : World) (f : Option Factory)
    (r : Result Bool)
    → f ≡ some (oef_functions key)
    → (closed_by stoi f e w r).2 ≡ returns
    → (closed_by stoi f e w r).1.agents ≡ remove key w.agents
unfolding endpoint_closed
cleared_lem stoi key e w none r on back = absurd (grind arith)
cleared_lem stoi key e w (some (initial_handshake h k)) r on back = absurd (grind arith)
cleared_lem stoi key e w (some (oef_functions k)) (ok b) on back =
    ap (λ k. remove k w.agents) (grind arith)
cleared_lem stoi key e w (some (oef_functions k)) (throws x) on back = absurd (grind arith)
cleared_lem stoi key e w (some (oef_functions k)) undefined on back = absurd (grind arith)

lost-returns :
    (stoi : List ℕ → Option ℤ) (action key : Name) (e : Endpoint) (w : World)
    → e.factory ≡ some (oef_functions key)
    → (lost stoi action e w).2 ≡ returns
    → (lost stoi action e w).1.agents ≡ remove key w.agents
unfolding lost endpoint_closed
lost-returns stoi action key e w on back =
    let (p, r) = perform stoi w.policy e.karma action false in
    cleared_lem stoi key e (record w { policy = p }) e.factory r on back

-- When two endpoints are logged in under one name and the connection of one of them ends, in a handler
-- that does not throw, none is found under the name any more, and the other is still logged in.
pub superseded_gone :
    (stoi : List ℕ → Option ℤ) (action key : Name) (s : System) (i j : ℕ)
    → j ≢ i
    → (s.endpoints i).factory ≡ some (oef_functions key)
    → (s.endpoints j).factory ≡ some (oef_functions key)
    → (lost stoi action (s.endpoints i) s.world).2 ≡ returns
    → let t = after i s (lost stoi action (s.endpoints i) s.world) in
      (find key t.world.agents ≡ none) × ((t.endpoints j).factory ≡ some (oef_functions key))
superseded_gone stoi action key s i j apart on on' back = (
  ap (find key) (lost-returns stoi action key (s.endpoints i) s.world on back)
      ∙ find-remove key key s.world.agents
      ∙ ap (λ c. if c then none else find key s.world.agents) (same_refl key),
  put_endpoint_lem (λ x. x.factory ≡ some (oef_functions key)) i j
      (lost stoi action (s.endpoints i) s.world).0 s.endpoints (λ t. absurd (apart t)) (λ f. on'),
)
