-- ===== src/Corosync/Node.antt =====
-- corosync/corosync.go: the C callbacks, which look at a change themselves and hand it to Go.
use go_test_cluster.Prelude.{
  ℕ, ◌≡◌, ◌≤◌, ◌<◌, ◌⊎◌, inl, inr, Bool-cases, get_elem?, List, Bool, not, ◌&&◌, ◌||◌, [], ◌∷◌,
  ◌++◌, Option, none, some, arith, length, ◌==◌, ltb, if◌then◌else◌,
}
use go_test_cluster.Corosync.Session.{Session, confchg_left}
use go_test_cluster.Corosync.Callback.{
  Array, ListData, CorosyncConfchg, list_of-get, Channels, list_of, confchg_callback,
}

-- The four channels of `Init`.
abbrev pub init : Channels
init = record {
  coro_cfg_chan = [];
  coro_deliv_chan = [];
  coro_totem_chan = [];
  coro_quorum_chan = [];
}

-- Is the first of the list this process, and under which node id? `own` is `getpid()`; the pids are
-- compared as they are.
abbrev pub first_left : ℕ → Array ListData → Option ℕ
first_left own left =
    if left.entries == 0
    then none
    else if (left.at 0).pid == own
    then some (left.at 0).nodeid
    else none

-- `ConfchgCallback`, which ends with the call of `corosyncConfchgCallback`; `none` says that this
-- waits for room on the channel.
unfoldable pub confchg :
    ℕ
    → Array ListData
    → Array ListData
    → Array ListData
    → Session
    → Channels
    → Option (Session × Channels)
unfolding confchg_left confchg_callback
confchg own members left joined s c =
    let s' = confchg_left (first_left own left) s in
    elim (confchg_callback members left joined c) [ none ↦ none | some d ↦ some (s', d) ]

-- Has this process left the group, under the id with which it joined?
abbrev pub has_left : ℕ → Array ListData → Session → Bool
has_left own left s =
    not (left.entries == 0)
    && ((left.at 0).pid == own
        && (not (s.nodeid_start == 0) && ((left.at 0).nodeid == s.nodeid_start)))

-- The entry at `i` of a list that has the entries of a C array, and no other.
abbrev pub HasEntry : ℕ → Array ListData → List ListData → Type 0
HasEntry i a xs = get_elem? xs i ≡ (if ltb i a.entries then some (a.at i) else none)

-- How the callback can end: it waits, or the change is on the channel.
abbrev pub IsTold :
    ℕ
    → Array ListData
    → Array ListData
    → Array ListData
    → Session
    → Channels
    → (ℕ × ℕ × ℕ)
    → Option (Session × Channels)
    → Type 0
IsTold own members left joined s c (i, j, k) d =
    ((128 ≤ length c.coro_cfg_chan) × (d ≡ none))
    ⊎ ((length c.coro_cfg_chan < 128)
        × ((m : CorosyncConfchg) × (d
              ≡ some (
                record s { restart = s.restart || has_left own left s },
                record c { coro_cfg_chan = c.coro_cfg_chan ++ m ∷ [] },
              ))
            × HasEntry i members m.member_list
            × HasEntry j left m.left_list
            × HasEntry k joined m.join_list))

-- `ConfchgCallback` waits, and changes nothing, exactly if 128 changes wait on the channel. Else the
-- change comes behind those, with three lists that hold the entries of the three C arrays at the
-- same indices, from 0 on, and nothing behind the last one; `i`, `j` and `k` are any indices. A restart
-- is asked for exactly if one was asked for before, or the first process that left is this one, by its
-- pid and under the node id with which it joined; nothing else of the session changes.
pub confchg-IsTold :
    (own : ℕ) (members left joined : Array ListData) (s : Session) (c : Channels) (i j k : ℕ)
    → IsTold own members left joined s c (i, j, k) (confchg own members left joined s c)
unfolding confchg
confchg-IsTold own members left joined s c i j k =
    elim (Bool-cases (ltb (length c.coro_cfg_chan) 128)) [
      | inl room ↦ inr (
        ground (arith, room),
        (
          record {
            member_list = list_of members;
            left_list = list_of left;
            join_list = list_of joined;
          },
          ground (arith, room),
          list_of-get members i,
          list_of-get left j,
          list_of-get joined k,
        ),
      )
      | inr full ↦ inl (ground (arith, full), ground (arith, full))
    ]
