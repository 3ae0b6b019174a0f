-- ===== src/GatewayStore/Events/Stale.antt =====
-- What a listing does to the latest number while lines of the session are still queued.
use code_harbor.Common.{
  ==_refl, String, ap, arith, false, nat_eq, none, some, string_eq, ℕ, ◌+◌, ◌<◌, ◌==◌, ◌∙◌, ◌≡◌,
  ◌≤◌,
}
use code_harbor.Common.JsMap.{get, get-set}
use code_harbor.GatewayStore.Cache.{cache_events, get_cached_events}
use code_harbor.GatewayStore.Events.{append_to, assign_seq, last_seq, list_events}
use code_harbor.GatewayStore.Events.Reading.{latest_seq_known, shown, shown_of_absent}
use code_harbor.GatewayStore.State.{Store}
use code_harbor.GatewayStore.Timeline.{read_events_from_disk}
use code_harbor.GatewayStore.Types.{GatewayMessage}

-- A listing takes the last number that it shows for the latest one.
list_events-latest :
    (st : Store) (id : String) (d : ℕ)
    → last_seq (shown st id) ≡ some d
    → 0 < d
    → get (list_events st id).0.latest_seq_by_session id ≡ some d
unfolding list_events cache_events
list_events-latest st id d last p =
    let m = (get_cached_events st id).0.latest_seq_by_session in
    let nonzero : (d == 0) ≡ false = ground arith in rw (last, nonzero, get-set, ==_refl id)

-- Let a session that is not cached have the latest number n while its file, whose last number is d, is
-- still behind: d < n, with the lines of the later events queued. A listing then shows only the file
-- and takes d for the latest number, so the next event with no number of its own gets d + 1, which is
-- not above n: the numbers of the session do not rise across the listing.
pub list-append_stale :
    (st : Store) (id : String) (message : GatewayMessage) (n d : ℕ)
    → get st.event_cache id ≡ none
    → get st.latest_seq_by_session id ≡ some n
    → last_seq (read_events_from_disk st id) ≡ some d
    → 0 < d
    → d < n
    → message.event_seq ≡ none
    → ((append_to (list_events st id).0 id message).1.event_seq ≡ some (d + 1)) × (d + 1 ≤ n)
unfolding append_to assign_seq
list-append_stale st id message n d miss known last p behind unnumbered =
    let shown_last : last_seq (shown st id) ≡ some d =
      ap last_seq (shown_of_absent st id miss) ∙ last in
    let latest = list_events-latest st id d shown_last p in
    (rw (latest_seq_known (list_events st id).0 id d latest, unnumbered), omega arith)
