-- ===== src/AuthStore/Registration/Unlocking.antt =====
-- What a registration leaves behind: a session is registered only with the key of its vault.
use gpt.Prelude.{
  given, String, ◌≡◌, refl, inl, inr, false, ◌&&◌, Option, none, some, List, [], ◌∷◌, ◌++◌, arith,
  Bool-cases, is_some, Result, ok, err, is_empty,
}
use gpt.AuthStore.State.{Session, is_pending_setup, IsUnlocked}
use gpt.AuthStore.Lifecycle.{
  confirm_user_canister_id, handle_invalid_delegation_error, set_auth_error,
}
use gpt.AuthStore.Registration.{
  Round, Ending, resolved, failed, again, go_to, check_cache, check_vault, check_assigned,
  register_user, assigned, on_assignment, round, on_error, end_of, rounds, resolve_user_session,
}

module _ {S : Type 0} where
  abbrev EndsUnlocked : Ending S → Type 0
  EndsUnlocked (resolved w) = IsUnlocked w.auth
  EndsUnlocked (failed message) = Unit {0}
  EndsUnlocked again = Unit {0}

  check_cache-IsUnlocked :
      (r : Round) (canister_id : String) (w : Session S)
      → IsUnlocked (check_cache r canister_id w).auth
  unfolding check_cache go_to confirm_user_canister_id set_auth_error
  check_cache-IsUnlocked r canister_id w = ground arith

  check_vault-EndsUnlocked :
      (r : Round) (canister_id : String) (w : Session S)
      → EndsUnlocked (check_vault r canister_id w)
  unfolding check_vault go_to
  check_vault-EndsUnlocked r canister_id w = ground (arith, check_cache-IsUnlocked r canister_id w)

  check_assigned-EndsUnlocked :
      (r : Round) (canister_id : String) (w : Session S)
      → EndsUnlocked (check_assigned r canister_id w)
  unfolding check_assigned go_to
  check_assigned-EndsUnlocked r canister_id w =
      ground (arith, check_vault-EndsUnlocked r canister_id w)

  assigned-EndsUnlocked :
      (r : Round) (o : Option String) (w : Session S) → EndsUnlocked (assigned r o w)
  unfolding assigned register_user
  assigned-EndsUnlocked r none w = ground arith
  assigned-EndsUnlocked r (some canister_id) w = check_assigned-EndsUnlocked r canister_id w

  on_assignment-EndsUnlocked :
      (r : Round) (a : Result (Option String)) (w : Session S) → EndsUnlocked (on_assignment r a w)
  unfolding on_assignment
  on_assignment-EndsUnlocked r (err message) w = tt
  on_assignment-EndsUnlocked r (ok found) w = assigned-EndsUnlocked r (given found) w

  round-EndsUnlocked : (r : Round) (w : Session S) → EndsUnlocked (round r w)
  unfolding round
  round-EndsUnlocked r w = on_assignment-EndsUnlocked r r.assignment w

  on_error-IsUnlocked :
      (reset_stores : S → S) (status : String → Option String) (message : String) (w : Session S)
      → IsUnlocked w.auth
      → IsUnlocked (on_error reset_stores status message w).auth
  unfolding on_error handle_invalid_delegation_error set_auth_error
  on_error-IsUnlocked reset_stores status message w h = ground arith

  abbrev OptUnlocked : Option (Session S) → Type 0
  OptUnlocked none = Unit {0}
  OptUnlocked (some w) = IsUnlocked w.auth

  end_of-OptUnlocked :
      (reset_stores : S → S) (status : String → Option String) (e : Ending S) (w : Session S)
      (more : Option (Session S))
      → EndsUnlocked e
      → IsUnlocked w.auth
      → OptUnlocked more
      → OptUnlocked (end_of reset_stores status e w more)
  unfolding end_of
  end_of-OptUnlocked reset_stores status (resolved v) w more h k l = h
  end_of-OptUnlocked reset_stores status (failed message) w more h k l =
      on_error-IsUnlocked reset_stores status message w k
  end_of-OptUnlocked reset_stores status again w more h k l = l

  rounds-OptUnlocked :
      (reset_stores : S → S) (status : String → Option String) (rs : List Round) (w : Session S)
      → IsUnlocked w.auth
      → OptUnlocked (rounds reset_stores status rs w)
  unfolding rounds
  rounds-OptUnlocked reset_stores status [] w h = tt
  rounds-OptUnlocked reset_stores status (r ∷ rs) w h =
      end_of-OptUnlocked reset_stores status (round r w) w (rounds reset_stores status rs w)
        (round-EndsUnlocked r w) h (rounds-OptUnlocked reset_stores status rs w h)

  resolve-OptUnlocked :
      (reset_stores : S → S) (status : String → Option String) (rs : List Round) (w : Session S)
      → IsUnlocked w.auth
      → OptUnlocked (resolve_user_session reset_stores status rs w)
  unfolding resolve_user_session
  resolve-OptUnlocked reset_stores status rs w h =
      ground (arith, rounds-OptUnlocked reset_stores status rs w h)

  -- If a registered session holds its key before the resolution, it does after it.
  pub resolve_user_session-IsUnlocked :
      (reset_stores : S → S) (status : String → Option String) (rs : List Round) (w v : Session S)
      → IsUnlocked w.auth
      → resolve_user_session reset_stores status rs w ≡ some v
      → IsUnlocked v.auth
  resolve_user_session-IsUnlocked reset_stores status rs w v h e =
      let known = resolve-OptUnlocked reset_stores status rs w h in
      let out : OptUnlocked (some v) = rw e at known in out

  abbrev IsLast : Ending S → Type 0
  IsLast (resolved w) = Unit {0}
  IsLast (failed message) = Unit {0}
  IsLast again = ⊥

  check_assigned-IsLast :
      (r : Round) (canister_id : String) (w : Session S) → IsLast (check_assigned r canister_id w)
  unfolding check_assigned check_vault
  check_assigned-IsLast r canister_id w = ground arith

  module _ (reset_stores : S → S) (status : String → Option String) where
    abbrev Ends : Option (Session S) → Type 0
    Ends o = (v : Session S) × (o ≡ some v)

    end_of-last :
        (e : Ending S) (w : Session S) (more : Option (Session S))
        → IsLast e
        → Ends (end_of reset_stores status e w more)
    unfolding end_of
    end_of-last (resolved v) w more h = (v, refl)
    end_of-last (failed message) w more h = (on_error reset_stores status message w, refl)
    end_of-last again w more h = absurd h

    end_of-Ends :
        (e : Ending S) (w : Session S) (more : Option (Session S))
        → Ends more
        → Ends (end_of reset_stores status e w more)
    unfolding end_of
    end_of-Ends (resolved v) w more h = (v, refl)
    end_of-Ends (failed message) w more h = (on_error reset_stores status message w, refl)
    end_of-Ends again w more h = h

    rounds-Ends :
        (before : List Round) (r : Round) (after : List Round) (canister_id : String)
        (w : Session S)
        → r.assignment ≡ ok (some canister_id)
        → is_empty canister_id ≡ false
        → Ends (rounds reset_stores status (before ++ r ∷ after) w)
    unfolding rounds round on_assignment assigned
    rounds-Ends [] r after canister_id w e full =
        end_of-last (round r w) w (rounds reset_stores status after w)
          (rw (e, on_assignment) (rw full (check_assigned-IsLast r canister_id w)))
    rounds-Ends (b ∷ before) r after canister_id w e full =
        end_of-Ends (round b w) w (rounds reset_stores status (before ++ r ∷ after) w)
          (rounds-Ends before r after canister_id w e full)

    -- Whatever the rounds before did, the action ends at the latest in the round whose lookup finds
    -- a canister.
    pub resolve_user_session-ends :
        (before : List Round) (r : Round) (after : List Round) (canister_id : String)
        (w : Session S)
        → r.assignment ≡ ok (some canister_id)
        → is_empty canister_id ≡ false
        → (v : Session S) × (resolve_user_session reset_stores status (before ++ r ∷ after) w
            ≡ some v)
    unfolding resolve_user_session
    resolve_user_session-ends before r after canister_id w e full =
        elim (Bool-cases (
          is_some w.auth.auth_client
          && is_some (given w.auth.principal)
          && is_pending_setup w.auth.auth_status)) [
            | inl t ↦ rw t (rounds-Ends before r after canister_id w e full)
            | inr f ↦ (w, rw f refl)
          ]
