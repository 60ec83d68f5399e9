-- ===== src/Telegram/PeerCache.antt =====
-- src/tms/telegram/peer_cache.py: the peers in RAM, by account and peer, before
-- those of the database.
use telegramv.Prelude.Maps.{assign}
use telegramv.Prelude.{
  ℕ, ◌≡◌, refl, Bool, false, ◌&&◌, List, [], ◌∷◌, ◌++◌, Option, none, some, ◌==◌, if◌then◌else◌,
  find, update_where, is_some, arith, Bool-cases, inl, inr, length, zero, suc, take, drop, select,
  contains,
}
use telegramv.Storage.{Database, PeerRow}

-- A CachedPeer has the columns of a row, and `_memory` is an association list without order.
abbrev pub Memory : Type 0
Memory = List PeerRow

abbrev pub has_key : ℕ → ℕ → PeerRow → Bool
has_key account_id peer_id peer = peer.account_id == account_id && peer.peer_id == peer_id

unfoldable pub put_memory : PeerRow → Memory → Memory
put_memory peer [] = peer ∷ []
put_memory peer (other ∷ memory) =
    let rest = put_memory peer memory in
    if has_key peer.account_id peer.peer_id other then peer ∷ memory else other ∷ rest

unfoldable pub get_memory : ℕ → ℕ → Memory → Option PeerRow
get_memory account_id peer_id memory = find (has_key account_id peer_id) memory

-- INSERT … ON CONFLICT(account_id,peer_id) DO UPDATE with all the columns
unfoldable pub persist_peer : PeerRow → List PeerRow → List PeerRow
persist_peer peer rows =
    if is_some (find (has_key peer.account_id peer.peer_id) rows)
    then update_where (has_key peer.account_id peer.peer_id) (λ row. peer) rows
    else rows ++ peer ∷ []

unfoldable pub put_all : List PeerRow → Memory → Memory
unfolding put_memory
put_all [] memory = memory
put_all (peer ∷ peers) memory = put_all peers (put_memory peer memory)

unfoldable pub persist_all : List PeerRow → List PeerRow → List PeerRow
unfolding persist_peer
persist_all [] rows = rows
persist_all (peer ∷ peers) rows = persist_all peers (persist_peer peer rows)

-- The memory at once, and the transaction's effect and result.
unfoldable pub persist_many : List PeerRow → Memory → Database → Memory × Database × ℕ
unfolding put_all persist_all
persist_many peers memory db =
    (put_all peers memory, record db { peer_cache = persist_all peers db.peer_cache }, length peers)

-- `get`: a peer that only the database has is put in memory.
unfoldable pub get : ℕ → ℕ → Bool → Memory → Database → Memory × Option PeerRow
unfolding get_memory put_memory
get account_id peer_id allow_db memory db = elim (get_memory account_id peer_id memory) [
  | some peer ↦ (memory, some peer)
  | none ↦
      if allow_db
      then elim (find (has_key account_id peer_id) db.peer_cache) [
        | none ↦ (memory, none)
        | some peer ↦ (put_memory peer memory, some peer)
      ]
      else (memory, none)
]

-- The peers of a list of ids that are in memory, by id, and the ids that are not.
from_memory : ℕ → List ℕ → Memory → List (ℕ × PeerRow) × List ℕ
unfolding get_memory
from_memory account_id [] memory = ([], [])
from_memory account_id (id ∷ ids) memory =
    let (known, missing) = from_memory account_id ids memory in
    elim (get_memory account_id id memory) [
      | some peer ↦ (assign (λ a b. a == b) id peer known, missing)
      | none ↦ (known, id ∷ missing)
    ]

-- The rows of a chunk are put in memory and into the result.
from_rows : List PeerRow → Memory × List (ℕ × PeerRow) → Memory × List (ℕ × PeerRow)
unfolding put_memory
from_rows [] (memory, result) = (memory, result)
from_rows (row ∷ rows) (memory, result) =
    from_rows rows (put_memory row memory, assign (λ a b. a == b) row.peer_id row result)

-- The loop over the chunks of the missing ids. The fuel bounds their number.
from_chunks : ℕ → ℕ → List ℕ → Database → Memory × List (ℕ × PeerRow) → Memory × List (ℕ × PeerRow)
unfolding from_rows
from_chunks zero account_id missing db found = found
from_chunks (suc fuel) account_id missing db found =
    let chunk = take 500 missing in
    from_chunks fuel account_id (drop 500 missing) db (
      from_rows
        (select (λ row. row.account_id == account_id && contains chunk row.peer_id) db.peer_cache)
        found)

-- `warm`, with fuel for a chunk for each missing id.
unfoldable pub warm : ℕ → List ℕ → Memory → Database → Memory × List (ℕ × PeerRow)
unfolding from_memory from_chunks
warm account_id peer_ids memory db =
    let (known, missing) = from_memory account_id peer_ids memory in
    from_chunks (length missing) account_id missing db (memory, known)

-- A peer that is put is found under its own account and id, and every other account and id finds
-- what it found before.
pub get_memory-put_memory :
    (peer : PeerRow) (account_id peer_id : ℕ) (memory : Memory)
    → get_memory account_id peer_id (put_memory peer memory) ≡ (
        if has_key account_id peer_id peer then some peer else get_memory account_id peer_id memory)
unfolding get_memory put_memory
get_memory-put_memory peer account_id peer_id [] = refl
get_memory-put_memory peer account_id peer_id (other ∷ memory) =
    let later = get_memory-put_memory peer account_id peer_id memory in
    elim (Bool-cases (has_key peer.account_id peer.peer_id other)) [
      | inl e ↦ elim (Bool-cases (has_key account_id peer_id peer)) [
        | inl k ↦ rw (e, k) refl
        | inr k ↦
            let apart : has_key account_id peer_id other ≡ false = ground arith in
            rw (e, k, apart) refl
      ]
      | inr e ↦ elim (Bool-cases (has_key account_id peer_id peer)) [
        | inl k ↦
            let apart : has_key account_id peer_id other ≡ false = ground arith in
            rw (e, apart) later
        | inr k ↦ elim (Bool-cases (has_key account_id peer_id other)) [
          | inl l ↦ rw (e, l, k) refl
          | inr l ↦ rw (e, l) later
        ]
      ]
    ]
