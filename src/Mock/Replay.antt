-- ===== src/Mock/Replay.antt =====
-- scripts/mock_pseudogram.py: sends with a key that was answered before.
use linkplease_tech_assignme.Base.{
  ℕ, ◌≡◌, refl, sym, ap, ◌∙◌, true, String, Option, none, some, List, [], ◌∷◌, ◌++◌, arith,
  Bool-cases, Option-cases, inl, inr, not_none, truthy, length, leb,
}
use linkplease_tech_assignme.Models.{Time}
use linkplease_tech_assignme.Pseudogram.{JsonObject, Response}
use linkplease_tech_assignme.Mock.{
  Dm, Mock, Draws, Send, Call, send_call, get_call, codes_eq, known_key, given_key, record_key,
  accepted_answer, admitted, limited, replay_or, known_dm, send_dm, found_dm, find_dm, get_dm,
  handle, handle_all, recent, max_sends,
}

pub codes_eq_refl : (k : List ℕ) → codes_eq k k ≡ true
codes_eq_refl [] = refl
codes_eq_refl (c ∷ cs) = ground (arith, codes_eq_refl cs)

known_key-append :
    (k : List ℕ) (d : String) (es : List (List ℕ × String)) (e : List ℕ × String)
    → known_key k es ≡ some d
    → known_key k (es ++ e ∷ []) ≡ some d
unfolding known_key
known_key-append k d [] e h = absurd (not_none h)
known_key-append k d ((k', d') ∷ es) e h = ground (arith, known_key-append k d es e)

known_key-new :
    (k : List ℕ) (d : String) (es : List (List ℕ × String))
    → known_key k es ≡ none
    → known_key k (es ++ (k, d) ∷ []) ≡ some d
unfolding known_key
known_key-new k d [] h = rw (codes_eq_refl k)
known_key-new k d ((k', d') ∷ es) h = ground (arith, known_key-new k d es)

record_key-known :
    (k : List ℕ) (d d' : String) (key : Option (List ℕ)) (es : List (List ℕ × String))
    → known_key k es ≡ some d
    → known_key k (record_key key d' es) ≡ some d
unfolding record_key
record_key-known k d d' none es h = h
record_key-known k d d' (some key) es h = known_key-append k d es (key, d') h

module _ (dumps : JsonObject → String) where
  admitted-known :
      (k : List ℕ) (d : String) (now : Time) (draws : Draws) (send : Send) (m : Mock)
      → known_key k m.by_idempotency ≡ some d
      → known_key k (admitted dumps now draws send m).1.by_idempotency ≡ some d
  unfolding admitted
  admitted-known k d now draws send m h = elim (Option-cases send.recipient_user_id) [
    | inl e ↦ rw (e, admitted) h
    | inr (user, e) ↦ elim (Bool-cases (truthy (some user))) [
      | inl t ↦ elim (Bool-cases draws.internal_error) [
        | inl i ↦ rw (e, admitted) (rw t (ground (arith, h)))
        | inr i ↦
            rw (e, admitted)
              (ground (
                arith,
                record_key-known k d draws.dm_id (given_key send.idempotency_key) m.by_idempotency
                    h,
              ))
      ]
      | inr t ↦ rw (e, admitted) (rw t h)
    ]
  ]

  limited-known :
      (k : List ℕ) (d : String) (now : Time) (draws : Draws) (send : Send) (m : Mock)
      → known_key k m.by_idempotency ≡ some d
      → known_key k (limited dumps now draws send m).1.by_idempotency ≡ some d
  unfolding limited
  limited-known k d now draws send m h =
      elim (Bool-cases (leb max_sends (length (recent now m.send_times)))) [
        | inl full ↦ rw full h
        | inr room ↦ rw room (
            admitted-known k d now draws send
              (record m { send_times = recent now m.send_times ++ now ∷ [] }) h)
      ]

  replay_or-known :
      (k : List ℕ) (d : String) (now : Time) (draws : Draws) (send : Send) (m : Mock)
      (x : Option String)
      → known_key k m.by_idempotency ≡ some d
      → known_key k (replay_or dumps now draws send m x).1.by_idempotency ≡ some d
  unfolding replay_or
  replay_or-known k d now draws send m none h = limited-known k d now draws send m h
  replay_or-known k d now draws send m (some x) h = h

  found-known :
      (k : List ℕ) (d : String) (now : Time) (dm_id : String) (m : Mock) (x : Option Dm)
      → known_key k m.by_idempotency ≡ some d
      → known_key k (found_dm dumps now dm_id m x).1.by_idempotency ≡ some d
  unfolding found_dm
  found-known k d now dm_id m none h = h
  found-known k d now dm_id m (some x) h = h

  handle-known :
      (k : List ℕ) (d : String) (call : Call) (m : Mock)
      → known_key k m.by_idempotency ≡ some d
      → known_key k (handle dumps call m).1.by_idempotency ≡ some d
  unfolding handle send_dm get_dm
  handle-known k d (send_call now draws send) m h =
      replay_or-known k d now draws send m (known_dm dumps (given_key send.idempotency_key) m) h
  handle-known k d (get_call now dm_id) m h = found-known k d now dm_id m (find_dm dm_id m.dms) h

  -- Whatever is asked meanwhile, a key keeps its identifier.
  pub handle_all-known :
      (k : List ℕ) (d : String) (calls : List Call) (m : Mock)
      → known_key k m.by_idempotency ≡ some d
      → known_key k (handle_all dumps calls m).by_idempotency ≡ some d
  unfolding handle_all
  handle_all-known k d [] m h = h
  handle_all-known k d (call ∷ calls) m h =
      handle_all-known k d calls (handle dumps call m).1 (handle-known k d call m h)

  -- A key that is known is answered from the dictionary, and nothing else happens.
  pub send_dm-replayed :
      (k : List ℕ) (d : String) (now : Time) (draws : Draws) (send : Send) (m : Mock)
      → given_key send.idempotency_key ≡ some k
      → known_key k m.by_idempotency ≡ some d
      → send_dm dumps now draws send m ≡ (accepted_answer dumps d, m)
  unfolding send_dm known_dm replay_or
  send_dm-replayed k d now draws send m g h = rw (g, known_dm) (rw (h, replay_or))

  -- What an accepted send leaves for its key.
  abbrev Accepted : List ℕ → Response × Mock → Type 0
  Accepted k (r, m) =
      (d : String) × (r ≡ accepted_answer dumps d) × (known_key k m.by_idempotency ≡ some d)

  admitted-Accepted :
      (k : List ℕ) (now : Time) (draws : Draws) (send : Send) (m : Mock)
      → given_key send.idempotency_key ≡ some k
      → known_key k m.by_idempotency ≡ none
      → (admitted dumps now draws send m).0.status_code ≡ 202
      → Accepted k (admitted dumps now draws send m)
  unfolding admitted record_key
  admitted-Accepted k now draws send m g h c = elim (Option-cases send.recipient_user_id) [
    | inl e ↦ absurd (ground (arith, (rw (e, admitted) at c)))
    | inr (user, e) ↦ elim (Bool-cases (truthy (some user))) [
      | inr t ↦ absurd (ground (arith, (rw (e, t, admitted) at c)))
      | inl t ↦ elim (Bool-cases draws.internal_error) [
        | inl i ↦ absurd (ground (arith, (rw (e, t, i, admitted) at c)))
        | inr i ↦
            rw (e, admitted)
              (rw (t, i)
                (
                  draws.dm_id,
                  refl,
                  rw (g, record_key) (known_key-new k draws.dm_id m.by_idempotency h),
                ))
      ]
    ]
  ]

  limited-Accepted :
      (k : List ℕ) (now : Time) (draws : Draws) (send : Send) (m : Mock)
      → given_key send.idempotency_key ≡ some k
      → known_key k m.by_idempotency ≡ none
      → (limited dumps now draws send m).0.status_code ≡ 202
      → Accepted k (limited dumps now draws send m)
  unfolding limited
  limited-Accepted k now draws send m g h c =
      elim (Bool-cases (leb max_sends (length (recent now m.send_times)))) [
        | inl full ↦ absurd (ground (arith, (rw full at c)))
        | inr room ↦ rw room (
            admitted-Accepted k now draws send
              (record m { send_times = recent now m.send_times ++ now ∷ [] }) g h (rw room at c))
      ]

  replay_or-Accepted :
      (k : List ℕ) (now : Time) (draws : Draws) (send : Send) (m : Mock) (x : Option String)
      → given_key send.idempotency_key ≡ some k
      → known_key k m.by_idempotency ≡ x
      → (replay_or dumps now draws send m x).0.status_code ≡ 202
      → Accepted k (replay_or dumps now draws send m x)
  unfolding replay_or
  replay_or-Accepted k now draws send m none g h c = limited-Accepted k now draws send m g h c
  replay_or-Accepted k now draws send m (some d) g h c = (d, refl, h)

  pub send_dm-Accepted :
      (k : List ℕ) (now : Time) (draws : Draws) (send : Send) (m : Mock)
      → given_key send.idempotency_key ≡ some k
      → (send_dm dumps now draws send m).0.status_code ≡ 202
      → Accepted k (send_dm dumps now draws send m)
  unfolding send_dm known_dm
  send_dm-Accepted k now draws send m g c =
      rw (g, known_dm)
        (replay_or-Accepted k now draws send m (known_key k m.by_idempotency) g refl
          (rw (g, known_dm) at c))

  -- Once a send with a key is accepted, each later send with that key, whatever was asked meanwhile, is
  -- answered exactly as the first, and changes nothing: no second DM is made for the key.
  pub send_dm-replays :
      (k : List ℕ) (now now' : Time) (draws draws' : Draws) (send send' : Send) (m : Mock)
      (calls : List Call)
      → given_key send.idempotency_key ≡ some k
      → given_key send'.idempotency_key ≡ some k
      → (send_dm dumps now draws send m).0.status_code ≡ 202
      → let (r, m') = send_dm dumps now draws send m in
        send_dm dumps now' draws' send' (handle_all dumps calls m') ≡ (r, handle_all dumps calls m')
  send_dm-replays k now now' draws draws' send send' m calls g g' c =
      let (d, answered, known) = send_dm-Accepted k now draws send m g c in
      let m' = (send_dm dumps now draws send m).1 in
      send_dm-replayed k d now' draws' send' (handle_all dumps calls m') g'
        (handle_all-known k d calls m' known)
      ∙ ap (λ (r : Response). (r, handle_all dumps calls m')) (sym answered)
