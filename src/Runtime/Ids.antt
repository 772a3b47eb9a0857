-- ===== src/Runtime/Ids.antt =====
-- next_deterministic_msg_id and next_deterministic_timer_id of crates/runtime/src/main.rs.
use unified_correctness_orie.Base.{ℕ, ◌^◌, ◌<◌, ◌≢◌, arith, sat_add, wrap_add, u64_mod}
use unified_correctness_orie.Runtime.Event.{Uuid}

-- The id, and the counter after the call.
unfoldable pub next_deterministic_msg_id : Uuid → ℕ → Uuid × ℕ
next_deterministic_msg_id node_id counter = (wrap_add node_id counter, sat_add counter 1)

abbrev pub timer_offset : ℕ
timer_offset = 2 ^ 96

unfoldable pub next_deterministic_timer_id : Uuid → ℕ → Uuid × ℕ
next_deterministic_timer_id node_id counter =
    (wrap_add (wrap_add node_id timer_offset) counter, sat_add counter 1)

-- At two different counters below 2 ^ 64 one node gives two different message ids.
pub msg_id-injective :
    (node c d : ℕ)
    → c < u64_mod
    → d < u64_mod
    → c ≢ d
    → (next_deterministic_msg_id node c).0 ≢ (next_deterministic_msg_id node d).0
unfolding next_deterministic_msg_id
msg_id-injective node c d hc hd h = omega arith

-- At two different counters below 2 ^ 64 one node gives two different timer ids.
pub timer_id-injective :
    (node c d : ℕ)
    → c < u64_mod
    → d < u64_mod
    → c ≢ d
    → (next_deterministic_timer_id node c).0 ≢ (next_deterministic_timer_id node d).0
unfolding next_deterministic_timer_id
timer_id-injective node c d hc hd h = omega arith

-- At counters below 2 ^ 64 a node gives no timer the id of a message.
pub msg_id-ne-timer_id :
    (node c d : ℕ)
    → c < u64_mod
    → d < u64_mod
    → (next_deterministic_msg_id node c).0 ≢ (next_deterministic_timer_id node d).0
unfolding next_deterministic_msg_id next_deterministic_timer_id
msg_id-ne-timer_id node c d hc hd = omega arith
