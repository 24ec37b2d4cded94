-- ===== src/Logging/Broadcaster/Steps.antt =====
-- Every step of the broadcaster returns, and steps each of its channels by itself.
use buildozer.Common.{
  ℕ, ltb, ◌==◌, Bool, true, false, ◌≡◌, refl, sym, ◌∙◌, ap, arith, inl, inr, Bool-cases, List, [],
  ◌∷◌, All-append,
}
use buildozer.Errors.{Outcome, done, ◌>>=◌}
use buildozer.Logging.Broadcaster.{
  LogEntry, set_channel, LogBroadcaster, new_channel, begin_broadcast, subscribe_entries, shut,
  is_subscribed, without_id, unsubscribe, close_all_subscribers, is_read_locked, unless_locked,
  taken, BroadcasterStep, begins, sends, subscribes, unsubscribes, closes_all, takes,
  broadcaster_step, run_broadcaster,
}
use buildozer.Logging.Broadcaster.Subscriptions.{
  AreOpen-set, AreOpen-of, AreAmong, on_each_lem, on_open-open, AreUsable, owed_by, view_of,
  own_step, is_subscribed-without_id, without_id-AreDistinctIds, without_id-All,
  fresh-is_subscribed, given-All,
}
use buildozer.Logging.Broadcaster.Readers.{map-snoc, unlocked-AreAmong, more-AreAmong}
use buildozer.Logging.Broadcaster.Views.{
  StepsWell, set_channel-at, is_subscribed-same, taken-fits, AreOpen-at,
}
use buildozer.Logging.Broadcaster.Sends.{sends-StepsWell}

begins-StepsWell :
    (locked : Bool) (entry : LogEntry) (b : LogBroadcaster)
    → AreUsable b
    → StepsWell locked (begins entry) (done (begin_broadcast entry b)) b
unfolding begin_broadcast
begins-StepsWell locked entry b (distinct, open_, given, fits, among) = (
  begin_broadcast entry b,
  refl,
  (
    distinct,
    open_,
    given,
    fits,
    All-append (AreAmong b.subscribers) b.readers _ among ((λ id listed. listed), tt),
  ),
  λ id.
      ap (λ owed. (b.channels id, is_subscribed id b.subscribers, owed))
        (map-snoc (owed_by id) b.readers (record { entry = entry; left = b.subscribers })),
)

subscribes-StepsWell :
    (b : LogBroadcaster) → AreUsable b → StepsWell false subscribes (done (subscribe_entries b)) b
unfolding subscribe_entries
subscribes-StepsWell b (distinct, open_, given, fits, among) =
    let unheard = fresh-is_subscribed b.next_sub_id b.subscribers given in
    (
      subscribe_entries b,
      refl,
      (
        (unheard, distinct),
        (
          ground arith,
          AreOpen-set b.channels b.next_sub_id new_channel b.subscribers unheard open_,
        ),
        (ground arith, given-All b.next_sub_id b.subscribers given),
        (λ id. ground (arith, fits id, Bool-cases (id == b.next_sub_id))),
        more-AreAmong b.subscribers b.next_sub_id b.readers among,
      ),
      λ id. ground (arith, Bool-cases (id == b.next_sub_id)),
    )

closes_all-StepsWell :
    (b : LogBroadcaster)
    → AreUsable b
    → is_read_locked b.readers ≡ false
    → StepsWell false closes_all (close_all_subscribers b) b
unfolding close_all_subscribers
closes_all-StepsWell b (distinct, open_, given, fits, among) free =
    let each = on_each_lem shut b.subscribers b.channels distinct open_ in
    (
      record b { channels = each.0; subscribers = [] },
      rw each.1 refl,
      (
        tt,
        tt,
        tt,
        (λ id. ground (arith, each.2 id, fits id, Bool-cases (is_subscribed id b.subscribers))),
        unlocked-AreAmong [] b.readers free,
      ),
      λ id. ground (arith, each.2 id, Bool-cases (is_subscribed id b.subscribers)),
    )

takes-StepsWell :
    (locked : Bool) (other : ℕ) (b : LogBroadcaster)
    → AreUsable b
    → StepsWell locked
        (takes other)
        (done (record b { channels = set_channel other (taken (b.channels other)) b.channels }))
        b
takes-StepsWell locked other b (distinct, open_, given, fits, among) =
    let at = set_channel-at taken other b.channels in
    (
      record b { channels = set_channel other (taken (b.channels other)) b.channels },
      refl,
      (
        distinct,
        AreOpen-of b.channels (set_channel other (taken (b.channels other)) b.channels)
            b.subscribers (λ id listed. ground (arith, at id, Bool-cases (id == other))) open_,
        given,
        (λ id. ground (
          arith,
          at id,
          fits id,
          taken-fits (b.channels id) (fits id),
          Bool-cases (id == other),
        )),
        among,
      ),
      λ id. ground (arith, at id, Bool-cases (id == other)),
    )

unsubscribes-StepsWell :
    (other : ℕ) (b : LogBroadcaster)
    → AreUsable b
    → is_read_locked b.readers ≡ false
    → StepsWell false (unsubscribes other) (unsubscribe other b) b
unfolding unsubscribe
unsubscribes-StepsWell other b (distinct, open_, given, fits, among) free =
    let at = set_channel-at shut other b.channels in
    let left = without_id other b.subscribers in
    elim (Bool-cases (is_subscribed other b.subscribers)) [
      | inl listed ↦ (
        record b {
          channels = set_channel other (shut (b.channels other)) b.channels;
          subscribers = left;
        },
        ground (
          arith,
          listed,
          on_open-open shut other b.channels
              (AreOpen-at b.channels other b.subscribers listed open_),
        ),
        (
          without_id-AreDistinctIds other b.subscribers distinct,
          AreOpen-set b.channels other (shut (b.channels other)) left
              (ground (arith, is_subscribed-without_id other other b.subscribers))
              (without_id-All (λ id. (b.channels id).closed ≡ false) other b.subscribers open_),
          without_id-All (λ id. ltb id b.next_sub_id ≡ true) other b.subscribers given,
          (λ id. ground (arith, at id, fits id, Bool-cases (id == other))),
          unlocked-AreAmong left b.readers free,
        ),
        λ id. elim (Bool-cases (id == other)) [
          | inl same ↦ ground (
            arith,
            at id,
            same,
            listed,
            is_subscribed-same id other b.subscribers same,
            is_subscribed-without_id id other b.subscribers,
          )
          | inr differ ↦
              ground (arith, at id, differ, is_subscribed-without_id id other b.subscribers)
        ],
      )
      | inr unlisted ↦ (
        b,
        ground (arith, unlisted),
        (distinct, open_, given, fits, among),
        λ id. elim (Bool-cases (id == other)) [
          | inl same ↦
              ground (arith, same, unlisted, is_subscribed-same id other b.subscribers same)
          | inr differ ↦ ground (arith, differ)
        ],
      )
    ]

-- A step that waits for the lock.
waits-StepsWell :
    (s : BroadcasterStep) (changed : Outcome LogBroadcaster) (b : LogBroadcaster)
    → ((id : ℕ) → own_step true s b.next_sub_id id (view_of id b) ≡ view_of id b)
    → AreUsable b
    → (is_read_locked b.readers ≡ false → StepsWell false s changed b)
    → StepsWell (is_read_locked b.readers) s (unless_locked changed b) b
waits-StepsWell s changed b idle h free = elim (Bool-cases (is_read_locked b.readers)) [
  | inl held ↦ rw held (b, refl, h, λ id. sym (idle id))
  | inr unheld ↦ rw unheld (free unheld)
]

-- While the subscribers are distinct, their channels open and their IDs given, no channel holds
-- more than 100 entries, and what a broadcast has not come to is subscribed, every step returns,
-- leaves the broadcaster like that, and steps each channel by the channel's own machine, which knows
-- of everything else only which ID is given next and whether some broadcast holds the lock. The
-- machine of a channel puts in the entries of the broadcasts that began while it was subscribed,
-- each at the send to this channel and at most once, and leaves out those that it has no room for;
-- while a broadcast holds the lock, nothing is subscribed, unsubscribed or closed.
pub broadcaster_step-own_step :
    (s : BroadcasterStep) (b : LogBroadcaster)
    → AreUsable b
    → StepsWell (is_read_locked b.readers) s (broadcaster_step s b) b
unfolding broadcaster_step
broadcaster_step-own_step (begins entry) b h = begins-StepsWell (is_read_locked b.readers) entry b h
broadcaster_step-own_step (sends reader id) b h =
    sends-StepsWell (is_read_locked b.readers) reader id b h
broadcaster_step-own_step subscribes b h =
    waits-StepsWell subscribes _ b (λ id. refl) h (λ free. subscribes-StepsWell b h)
broadcaster_step-own_step (unsubscribes id) b h =
    waits-StepsWell (unsubscribes id) _ b (λ other. refl) h (unsubscribes-StepsWell id b h)
broadcaster_step-own_step closes_all b h =
    waits-StepsWell closes_all _ b (λ id. refl) h (closes_all-StepsWell b h)
broadcaster_step-own_step (takes id) b h = takes-StepsWell (is_read_locked b.readers) id b h

-- While the subscribers are distinct, their channels open and their IDs given, no channel holds
-- more than 100 entries, and what a broadcast has not come to is subscribed, steps in any order, also
-- of broadcasts that interleave channel by channel, never send on a closed channel and never close
-- one twice, and all of this holds behind them.
pub run_broadcaster_lem :
    (steps : List BroadcasterStep) (b : LogBroadcaster)
    → AreUsable b
    → (after : LogBroadcaster) × (run_broadcaster steps b ≡ done after) × AreUsable after
unfolding run_broadcaster
run_broadcaster_lem [] b h = (b, refl, h)
run_broadcaster_lem (s ∷ steps) b h =
    let (next, e, usable, views) = broadcaster_step-own_step s b h in
    let (after, later, still) = run_broadcaster_lem steps next usable in
    (
      after,
      ap (λ (r : Outcome LogBroadcaster). r >>= (λ n. run_broadcaster steps n)) e ∙ later,
      still,
    )
