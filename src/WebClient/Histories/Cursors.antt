-- ===== src/WebClient/Histories/Cursors.antt =====
-- useCodeHarbor.ts, saveCursor and its callers: what the cursor of one session does.
use code_harbor.Common.{
  Option, String, arith, false, length, nat_eq, none, some, string_eq, suc, true, truthy, ℕ, ◌+◌,
  ◌<◌, ◌==◌, ◌≡◌, ◌≤◌,
}
use code_harbor.Common.JsMap.{JsMap, get-set, length-set-le, set}
use code_harbor.Common.Json.{Members, lookup, member, no_members}
use code_harbor.WebClient.Fields.{as_number}
use code_harbor.WebClient.Messages.{save_each, save_returned}
use code_harbor.WebClient.State.{WebClient, cursor_of, keep_newest, save_cursor, store_cursors}

abbrev pub cursor : String → WebClient → ℕ
cursor id c = cursor_of c.cursors id

keep_newest_of_few : (m : JsMap String ℕ) → length m ≤ 10_000 → keep_newest m ≡ m
unfolding keep_newest
keep_newest_of_few m h = ground arith

length-save_cursor-le :
    (c : WebClient) (k : String) (seq : ℕ)
    → suc (length c.cursors) ≤ 10_000
    → length (save_cursor c k seq).cursors ≤ suc (length c.cursors)
unfolding save_cursor store_cursors
length-save_cursor-le c k seq h =
    ground (arith, length-set-le c.cursors k seq, keep_newest_of_few (set c.cursors k seq))

-- A cursor never goes back.
pub save_cursor-le :
    (id : String) (c : WebClient) (k : String) (seq : ℕ)
    → suc (length c.cursors) ≤ 10_000
    → cursor id c ≤ cursor id (save_cursor c k seq)
unfolding save_cursor store_cursors
save_cursor-le id c k seq h = ground (
  arith,
  length-set-le c.cursors k seq,
  keep_newest_of_few (set c.cursors k seq),
  get-set c.cursors k id seq,
  string_eq.beq_iff k id,
)

-- Saving the cursor of one session leaves those of the others.
pub save_cursor-other :
    (id : String) (c : WebClient) (k : String) (seq : ℕ)
    → suc (length c.cursors) ≤ 10_000
    → (k == id) ≡ false
    → cursor id (save_cursor c k seq) ≡ cursor id c
unfolding save_cursor store_cursors
save_cursor-other id c k seq h other = ground (
  arith,
  length-set-le c.cursors k seq,
  keep_newest_of_few (set c.cursors k seq),
  get-set c.cursors k id seq,
)

pub save_cursor-at :
    (id : String) (c : WebClient) (seq : ℕ)
    → suc (length c.cursors) ≤ 10_000
    → truthy id ≡ true
    → cursor id c < seq
    → cursor id (save_cursor c id seq) ≡ seq
unfolding save_cursor store_cursors
save_cursor-at id c seq h t lt = ground (
  arith,
  length-set-le c.cursors id seq,
  keep_newest_of_few (set c.cursors id seq),
  get-set c.cursors id id seq,
  string_eq.beq_iff id id,
)

-- How many cursors a message returns.
abbrev pub count_members : Members → ℕ
count_members no_members = 0
count_members (member k j ms) = suc (count_members ms)

save_returned-le :
    (id : String) (c : WebClient) (k : String) (o : Option ℕ)
    → suc (length c.cursors) ≤ 10_000
    → (cursor id c ≤ cursor id (save_returned c k o))
      × (length (save_returned c k o).cursors ≤ suc (length c.cursors))
save_returned-le id c k none h = (omega arith, omega arith)
save_returned-le id c k (some value) h =
    ground (arith, save_cursor-le id c k value h, length-save_cursor-le c k value h)

pub save_each-le :
    (id : String) (c : WebClient) (all ms : Members)
    → length c.cursors + count_members ms ≤ 10_000
    → cursor id c ≤ cursor id (save_each c all ms)
save_each-le id c all no_members h = omega arith
save_each-le id c all (member k j ms) h =
    let (le, few) = save_returned-le id c k (as_number (lookup all k)) (omega arith) in
    let rest =
      save_each-le id (save_returned c k (as_number (lookup all k))) all ms (omega arith) in
    omega arith
