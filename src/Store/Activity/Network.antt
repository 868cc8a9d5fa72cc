-- ===== src/Store/Activity/Network.antt =====
-- The rows of `network_activity`.
use native.Mathlib.Nat.{zero-add}
use whyrun.Common.Int.{pos, ◌+ℤ◌, int_eq}
use whyrun.Common.Map.{bytes_key}
use whyrun.Common.{
  ◌^◌, ◌<◌, ◌≡◌, ◌⊎◌, refl, ◌∙◌, sym, not, true, false, List, ◌∷◌, Option, none, some, Bytes, codes,
  equal, equal_iff, if◌then◌else◌, ◌==◌, arith, Bool-cases, inl, inr,
}
use whyrun.Store.Activity.{
  is_of, calls, successes, failures, last_errno, total, sums-le-total, outcomes-calls,
}
use whyrun.Store.Tables.{
  EventRow, NetworkRow, Tables, find_row, put_row, find_row-put_row, merged_network, network_fits,
  effect, add_network_activity, changed,
}
use whyrun.Store.Writer.{one_if}

abbrev connect : Bytes
connect = codes "network_connect"

-- What the events say of the connections to an endpoint.
unfoldable pub network_total : Bytes → List EventRow → Option NetworkRow
network_total endpoint rows =
    if calls connect endpoint rows == 0
    then none
    else some (record {
      endpoint = endpoint;
      connect_count = pos (calls connect endpoint rows);
      success_count = pos (successes connect endpoint rows);
      failure_count = pos (failures connect endpoint rows);
      last_errno = last_errno connect endpoint rows;
    })

abbrev pub NetworkAgrees : Tables → Type 0
NetworkAgrees t =
    (endpoint : Bytes)
    → find_row (λ (r : NetworkRow). r.endpoint) endpoint t.network_activity
      ≡ network_total endpoint t.events

module _ (endpoint : Bytes) (row : EventRow) (rows : List EventRow) where
  pub network_total-other :
      equal row.type connect ≡ false
      → network_total endpoint (row ∷ rows) ≡ network_total endpoint rows
  unfolding network_total calls successes failures last_errno is_of
  network_total-other other = rw other (simp zero-add)

  network_total-elsewhere :
      equal row.resource endpoint ≡ false
      → network_total endpoint (row ∷ rows) ≡ network_total endpoint rows
  unfolding network_total calls successes failures last_errno is_of
  network_total-elsewhere elsewhere = ground arith

  -- The row that the statement of the writer stores.
  abbrev stored_row : Option NetworkRow → NetworkRow
  stored_row =
      merged_network endpoint (one_if (int_eq row.errno_value (pos 0)))
        (one_if (not (int_eq row.errno_value (pos 0)))) row.errno_value

  network_total-connect :
      equal row.resource endpoint ≡ true
      → equal row.type connect ≡ true
      → network_total endpoint (row ∷ rows) ≡ some (stored_row (network_total endpoint rows))
  unfolding network_total calls successes failures last_errno is_of merged_network ◌+ℤ◌
  network_total-connect here connects =
      rw (here, connects) (ground (arith, outcomes-calls connect endpoint rows))

network_total-fits :
    (endpoint : Bytes) (rows : List EventRow) (r : NetworkRow)
    → total rows < 2 ^ 63
    → some r ≡ network_total endpoint rows
    → network_fits r ≡ true
unfolding network_total
network_total-fits endpoint rows r small is_total =
    ground (arith, sums-le-total connect endpoint rows, outcomes-calls connect endpoint rows)

network_total-endpoint :
    (endpoint : Bytes) (rows : List EventRow) (r : NetworkRow)
    → network_total endpoint rows ≡ some r
    → r.endpoint ≡ endpoint
unfolding network_total
network_total-endpoint endpoint rows r is_total = ground arith

module _ (t : Tables) (row : EventRow) (agree : NetworkAgrees t)
    (small : total (row ∷ t.events) < 2 ^ 63) (connects : equal row.type connect ≡ true) where
  abbrev added : Tables
  added = record t { events = row ∷ t.events }

  abbrev pub new_network_row : NetworkRow
  new_network_row =
      stored_row row.resource row t.events
        (find_row (λ (r : NetworkRow). r.endpoint) row.resource t.network_activity)

  -- The table once the event is counted.
  abbrev pub with_connection : Tables
  with_connection = record added {
    network_activity = put_row (λ (r : NetworkRow). r.endpoint) new_network_row t.network_activity;
  }

  stored : some new_network_row ≡ network_total row.resource (row ∷ t.events)
  stored = rw (agree row.resource) (
      sym (
        network_total-connect row.resource row t.events
          ((equal_iff row.resource row.resource).1 refl) connects))

  pub effect-network :
      effect
        (add_network_activity row.resource
          (one_if (int_eq row.errno_value (pos 0)))
          (one_if (not (int_eq row.errno_value (pos 0))))
          row.errno_value)
        added
      ≡ changed with_connection
  unfolding effect
  effect-network = rw (network_total-fits row.resource (row ∷ t.events) _ small stored) refl

  pub with_connection-NetworkAgrees : NetworkAgrees with_connection
  unfolding merged_network
  with_connection-NetworkAgrees endpoint =
      find_row-put_row (λ (r : NetworkRow). r.endpoint) endpoint new_network_row t.network_activity
      ∙ rw its_endpoint (by_endpoint (Bool-cases (equal row.resource endpoint)))
    where
      its_endpoint : new_network_row.endpoint ≡ row.resource
      its_endpoint =
          network_total-endpoint row.resource (row ∷ t.events) new_network_row (sym stored)

      by_endpoint :
          (equal row.resource endpoint ≡ true) ⊎ (equal row.resource endpoint ≡ false)
          → (if equal row.resource endpoint
              then some new_network_row
              else find_row (λ (r : NetworkRow). r.endpoint) endpoint t.network_activity)
            ≡ network_total endpoint (row ∷ t.events)
      by_endpoint (inl here) = rw here (rw (← (equal_iff row.resource endpoint).0 here) stored)
      by_endpoint (inr elsewhere) =
          rw elsewhere
            (agree endpoint ∙ sym (network_total-elsewhere endpoint row t.events elsewhere))
