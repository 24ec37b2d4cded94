-- ===== src/Logging/Broadcaster/Sends.antt =====
-- The send of a broadcast to one subscriber.
use buildozer.Common.{
  ℕ, ◌==◌, Bool, true, ◌≡◌, arith, inl, inr, Bool-cases, Option-cases, some, map, get_elem?,
  set_elem,
}
use buildozer.Logging.Broadcaster.{
  set_channel, Broadcasting, LogBroadcaster, pushed, send_entry, is_subscribed, without_id, sends,
}
use buildozer.Logging.Broadcaster.Subscriptions.{
  AreOpen-of, AreAmong, on_open-open, AreUsable, owed_by, view_of, own_step,
  is_subscribed-without_id,
}
use buildozer.Logging.Broadcaster.Readers.{
  get_elem?-All, set_elem-All, map-set_elem, get_elem?-map, get_elem?-map-none, set_elem-same,
}
use buildozer.Logging.Broadcaster.Views.{
  StepsWell, pushed-closed, pushed-fits, set_channel-at, is_subscribed-same, AreOpen-at,
}

-- The send that is due, in the channel's own view.
due-view :
    (r : Broadcasting) (reader other : ℕ) (b : LogBroadcaster)
    → get_elem? b.readers reader ≡ some r
    → is_subscribed other r.left ≡ true
    → (id : ℕ)
    → view_of id (record b {
      channels = set_channel other (pushed r.entry (b.channels other)) b.channels;
      readers = set_elem b.readers reader (record r { left = without_id other r.left });
    })
      ≡ own_step true (sends reader other) b.next_sub_id id (view_of id b)
due-view r reader other b found due id =
    let at = set_channel-at (pushed r.entry) other b.channels id in
    let later : Broadcasting = record r { left = without_id other r.left } in
    let seen = get_elem?-map (owed_by id) b.readers reader r found in
    let now = map-set_elem (owed_by id) b.readers reader later in
    let left = is_subscribed-without_id id other r.left in
    elim (Bool-cases (id == other)) [
      | inl same ↦
          let listed = is_subscribed-same id other r.left same in
          ground (arith, at, same, seen, now, left, listed, due)
      | inr differ ↦
          let kept = set_elem-same (map (owed_by id) b.readers) reader (owed_by id r) seen in
          ground (arith, at, differ, now, left, kept)
    ]

-- The subscriber whose turn it is.
pub sends-StepsWell :
    (locked : Bool) (reader other : ℕ) (b : LogBroadcaster)
    → AreUsable b
    → StepsWell locked (sends reader other) (send_entry reader other b) b
unfolding send_entry
sends-StepsWell locked reader other b h = elim (Option-cases (get_elem? b.readers reader)) [
  | inl missing ↦ (
    b,
    ground (arith, missing),
    h,
    λ id. ground (arith, get_elem?-map-none (owed_by id) b.readers reader missing),
  )
  | inr (r, found) ↦ elim (Bool-cases (is_subscribed other r.left)) [
    | inl due ↦
        let (distinct, open_, given, fits, among) = h in
        let mine = get_elem?-All (AreAmong b.subscribers) b.readers reader r among found in
        let at = set_channel-at (pushed r.entry) other b.channels in
        let sent = set_channel other (pushed r.entry (b.channels other)) b.channels in
        let later : Broadcasting = record r { left = without_id other r.left } in
        (
          record b { channels = sent; readers = set_elem b.readers reader later },
          ground (
            arith,
            found,
            due,
            on_open-open (pushed r.entry) other b.channels
                (AreOpen-at b.channels other b.subscribers (mine other due) open_),
          ),
          (
            distinct,
            AreOpen-of b.channels sent b.subscribers
                (λ id listed.
                  ground
                    (arith, at id, pushed-closed r.entry (b.channels id), Bool-cases (id == other)))
                open_,
            given,
            (λ id. ground (
              arith,
              at id,
              fits id,
              pushed-fits r.entry (b.channels id) (fits id),
              Bool-cases (id == other),
            )),
            set_elem-All (AreAmong b.subscribers) b.readers reader later among (λ id listed.
                mine id (ground (arith, listed, is_subscribed-without_id id other r.left))),
          ),
          due-view r reader other b found due,
        )
    | inr over ↦ (
      b,
      ground (arith, found, over),
      h,
      λ id.
          let seen = get_elem?-map (owed_by id) b.readers reader r found in
          elim (Bool-cases (id == other)) [
            | inl same ↦
                let spent = is_subscribed-same id other r.left same in
                ground (arith, same, seen, spent, over)
            | inr differ ↦ ground (arith, differ)
          ],
    )
  ]
]
