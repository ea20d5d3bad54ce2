-- ===== src/Tests/Tasks.antt =====
-- A run of two tasks of one client.
use oidc4rs.Prelude.{
  ℕ, ◌≡◌, refl, false, none, some, ok, Bytes, codes, eqb, eq_ignore_ascii_case, any, retain, In,
}
use oidc4rs.Token.Verify
use oidc4rs.Token.Verify.{check_alg, is_forbidden_alg}
use oidc4rs.Client.Entry.{verifier, metadata, client_id, Runs-verifier}
use oidc4rs.Tests.Env.{rp, readings, stale_state, services, online, manual_state, document, op}
use oidc4rs.Tests.Provider.{manual_fetched, manual_state_made, found}
use oidc4rs.Client.Provider.{publish}
use oidc4rs.Client.Provider.Setting.{disabled, configure}
use oidc4rs.Client.Refresh.Steps.{Reaches, from_parts}
use oidc4rs.Client.Refresh.Tasks.{
  guarded, waiting, fetching, returned, forced, force, acquire, snapshot, replace, Tasks, moved,
  task, setter, Runs, at_start, then_turn, initial, idle,
}
use oidc4rs.Client.Refresh.Tasks.Alone.{Moves, free, rest, alone-Moves}
use oidc4rs.Client.Refresh.Tasks.Live.{Runs-release}
use oidc4rs.Client.Refresh.{refresh_metadata_if_stale, refresh_metadata}
use oidc4rs.Client.Refresh.Tasks.Refine.{Runs-Reaches, shared_of}
use oidc4rs.Client.Refresh.Tasks.Safe.{Runs-exclusive}
use oidc4rs.Client.Refresh.Tasks.Documents.{IsDocumentOf, Runs-document}

-- Task 3 waits while task 5 refreshes, and a setter runs before the document is published.
abbrev before : Tasks Bytes
before = record {
  memory = record { provider = configure disabled manual_state; holder = some 5 };
  place =
      moved
        (moved (moved (moved (λ i. idle) 3 (waiting forced)) 5 (waiting forced)) 5 (guarded forced))
        5 (fetching forced manual_state);
}

before-Runs : Runs services manual_state before
before-Runs =
    then_turn
      (then_turn
        (then_turn
          (then_turn (then_turn at_start (task 3 (initial services manual_state) _ _ (force _)))
            (task 5 _ _ _ (force _)))
          (task 5 _ _ _ (acquire forced manual_state)))
        (task 5 _ _ _ (snapshot manual_state)))
      (setter disabled _)

abbrev after : Tasks Bytes
after = record {
  memory = record {
    provider =
        publish services.http_date 100 100 found (codes "https://op/keys")
          (configure disabled manual_state);
    holder = none;
  };
  place = moved before.place 5 (returned (ok document));
}

after-Runs : Runs services manual_state after
after-Runs = then_turn before-Runs (
    task 5 before _ _ (
      replace forced online 100 100 (configure disabled manual_state) manual_state found
        (codes "https://op/keys") manual_fetched))

Runs-Reaches_example : Reaches services manual_state (shared_of after.memory after.place)
Runs-Reaches_example = Runs-Reaches services manual_state after after-Runs

Runs-exclusive_example : ◌≡◌ {A = ℕ} 5 5
Runs-exclusive_example = Runs-exclusive services manual_state before before-Runs 5 5 refl refl

Runs-document_example : IsDocumentOf op document
Runs-document_example =
    Runs-document services op manual_state after 5 document
      (from_parts document manual_state manual_state_made) after-Runs refl

-- The refresh of task 5 ends, whatever it is answered.
Runs-release_example :
    Moves services 5 before.memory
      (before.place 5)
      (free services (rest services online readings 5 (before.place 5) before.memory.provider).1)
      (returned (rest services online readings 5 (before.place 5) before.memory.provider).0)
Runs-release_example = Runs-release services manual_state before 5 online readings before-Runs refl

alone-Moves_example :
    Moves services 3
      (free services stale_state)
      idle
      (free services (refresh_metadata_if_stale services online readings stale_state).1)
      (returned (refresh_metadata_if_stale services online readings stale_state).0)
    × Moves services 3
        (free services stale_state)
        idle
        (free services (refresh_metadata services online readings stale_state).1)
        (returned (refresh_metadata services online readings stale_state).0)
alone-Moves_example = alone-Moves services online readings 3 stale_state

after_verifier_accepts : check_alg (verifier rp after.memory.provider) (codes "RS256") ≡ ok tt
unfolding verifier metadata client_id check_alg Verify.from_metadata eq_ignore_ascii_case any eqb
    is_forbidden_alg retain publish
after_verifier_accepts = refl

Runs-verifier_example :
    ((verifier rp after.memory.provider).expected_issuer ≡ op.serialized)
    × ((verifier rp after.memory.provider).expected_audience ≡ codes "rp")
    × In (codes "RS256") after.memory.provider.metadata.id_token_signing_alg_values_supported
    × (is_forbidden_alg (codes "RS256") ≡ false)
Runs-verifier_example =
    Runs-verifier services rp op manual_state after (codes "RS256")
      (from_parts document manual_state manual_state_made) after-Runs after_verifier_accepts
