-- ===== src/Daemon/JobManager/Steps/Over.antt =====
-- What later steps of any goroutines do to a channel that is closed: they take values out of it,
-- and no more.
use buildozer.Common.{
  ℕ, ◌≤◌, ◌<◌, Bool, true, false, String, List, [], ◌∷◌, ◌++◌, ◌≡◌, refl, subst, ap, arith, length,
  ltb, inl, inr, Bool-cases, ◌==◌,
}
use buildozer.Errors.{Outcome, done, panic, ◌>>=◌}
use buildozer.Proto.Job.{JobResult, JobStatus}
use buildozer.Daemon.Channels.{
  Update, Channel, Channels, set, try_send, wait_send, close, notify, close_all, is_among, capacity,
  pushed, behind_first,
}
use buildozer.Daemon.JobState.{
  JobState, Shared, update_progress, remove_watcher, close_watchers, remove_channel,
}
use buildozer.Daemon.JobManager.{OutputProgress, progress_callback, set_result}

-- A channel that was made and is closed, and holds at most so many values.
abbrev pub IsOver : ℕ → ℕ → Channels → Type 0
IsOver n c chs = (c < chs.next) × ((chs.at c).closed ≡ true) × (length (chs.at c).buffer ≤ n)

pub bind-done {ℓ κ} :
    {A : Type ℓ} {B : Type κ} (r : Outcome A) (f : A → Outcome B) (y : B)
    → (r >>= f) ≡ done y
    → (x : A) × (r ≡ done x) × (f x ≡ done y)
bind-done (done x) f y e = (x, refl, e)
bind-done panic f y e = absurd (ground (arith, e))

-- Another channel is changed.
pub set-IsOver :
    (n c d : ℕ) (x : Channel) (chs : Channels)
    → (chs.at d).closed ≡ false
    → IsOver n c chs
    → IsOver n c (set d x chs)
unfolding set
set-IsOver n c d x chs is_open (made, shut, few) = elim (Bool-cases (c == d)) [
  | inl same ↦
      let e : c ≡ d = ground (arith, same) in
      absurd (ground (arith, is_open, shut, ap (λ m. (chs.at m).closed) e))
  | inr differ ↦ rw differ (made, shut, few)
]

try_send-IsOver :
    (n c d : ℕ) (u : Update) (chs new : Channels)
    → IsOver n c chs
    → try_send u d chs ≡ done new
    → IsOver n c new
unfolding try_send
try_send-IsOver n c d u chs new over e = elim (Bool-cases (chs.at d).closed) [
  | inl shut ↦ absurd (ground (arith, e, shut))
  | inr is_open ↦ elim (Bool-cases (ltb (length (chs.at d).buffer) capacity)) [
    | inl room ↦
        let there : set d (pushed u (chs.at d)) chs ≡ new = ground (arith, e, is_open, room) in
        subst (IsOver n c) there (set-IsOver n c d _ chs is_open over)
    | inr full ↦
        let there : chs ≡ new = ground (arith, e, is_open, full) in subst (IsOver n c) there over
  ]
]

notify-IsOver :
    (n c : ℕ) (ds : List ℕ) (chs new : Channels)
    → IsOver n c chs
    → notify ds chs ≡ done new
    → IsOver n c new
unfolding notify
notify-IsOver n c [] chs new over e =
    let there : chs ≡ new = ground (arith, e) in subst (IsOver n c) there over
notify-IsOver n c (d ∷ ds) chs new over e =
    let (mid, sent, rest) = bind-done (try_send Update.live d chs) (notify ds) new e in
    notify-IsOver n c ds mid new (try_send-IsOver n c d Update.live chs mid over sent) rest

close-IsOver :
    (n c d : ℕ) (chs new : Channels) → IsOver n c chs → close d chs ≡ done new → IsOver n c new
unfolding close
close-IsOver n c d chs new over e = elim (Bool-cases (chs.at d).closed) [
  | inl shut ↦ absurd (ground (arith, e, shut))
  | inr is_open ↦
      let there : set d (record (chs.at d) { closed = true }) chs ≡ new =
        ground (arith, e, is_open) in
      subst (IsOver n c) there (set-IsOver n c d _ chs is_open over)
]

wait_send-IsOver :
    (n c d : ℕ) (drained : Bool) (u : Update) (chs new : Channels)
    → IsOver n c chs
    → wait_send drained u d chs ≡ done new
    → IsOver n c new
unfolding wait_send
wait_send-IsOver n c d drained u chs new over e = elim (Bool-cases (chs.at d).closed) [
  | inl shut ↦ absurd (ground (arith, e, shut))
  | inr is_open ↦
      let at = set-IsOver n c d in
      elim (Bool-cases (ltb (length (chs.at d).buffer) capacity)) [
        | inl room ↦
            let there : set d (pushed u (chs.at d)) chs ≡ new = ground (arith, e, is_open, room) in
            subst (IsOver n c) there (at _ chs is_open over)
        | inr full ↦ go drained is_open full e
      ]
]
  where
    go :
        (b : Bool)
        → (chs.at d).closed ≡ false
        → ltb (length (chs.at d).buffer) capacity ≡ false
        → wait_send b u d chs ≡ done new
        → IsOver n c new
    go true is_open full f =
        let there : set d (record (chs.at d) { buffer = behind_first (chs.at d).buffer ++ u ∷ [] })
              chs
            ≡ new =
          ground (arith, f, is_open, full) in
        subst (IsOver n c) there (set-IsOver n c d _ chs is_open over)
    go false is_open full f =
        let there : chs ≡ new = ground (arith, f, is_open, full) in subst (IsOver n c) there over

close_all-IsOver :
    (n c : ℕ) (drained : ℕ → Bool) (ds : List ℕ) (chs new : Channels)
    → IsOver n c chs
    → close_all drained ds chs ≡ done new
    → IsOver n c new
unfolding close_all
close_all-IsOver n c drained [] chs new over e =
    let there : chs ≡ new = ground (arith, e) in subst (IsOver n c) there over
close_all-IsOver n c drained (d ∷ ds) chs new over e =
    let (mid, closing, rest) =
      bind-done (wait_send (drained d) Update.live d chs >>= close d) (close_all drained ds) new
        e in
    let (told, sent, shut) =
      bind-done (wait_send (drained d) Update.live d chs) (close d) mid closing in
    close_all-IsOver n c drained ds mid new
      (close-IsOver n c d told mid
        (wait_send-IsOver n c d (drained d) Update.live chs told over sent) shut)
      rest

pub update_progress-IsOver :
    (n c now : ℕ) (status : JobStatus) (message : String) (js : JobState) (chs : Channels)
    (r : Shared)
    → IsOver n c chs
    → update_progress now status message (js, chs) ≡ done r
    → IsOver n c r.1
unfolding update_progress
update_progress-IsOver n c now status message js chs r over e =
    let (told, sent, same) = bind-done (notify js.watchers chs) _ r e in
    let there : told ≡ r.1 = ground (arith, same) in
    subst (IsOver n c) there (notify-IsOver n c js.watchers chs told over sent)

pub progress_callback-IsOver :
    (n c : ℕ) (o : OutputProgress) (js : JobState) (chs : Channels) (r : Shared)
    → IsOver n c chs
    → progress_callback o (js, chs) ≡ done r
    → IsOver n c r.1
unfolding progress_callback
progress_callback-IsOver n c o js chs r over e =
    let (told, sent, same) = bind-done (notify js.watchers chs) _ r e in
    let there : told ≡ r.1 = ground (arith, same) in
    subst (IsOver n c) there (notify-IsOver n c js.watchers chs told over sent)

pub set_result-IsOver :
    (n c : ℕ) (result : JobResult) (js : JobState) (chs : Channels) (r : Shared)
    → IsOver n c chs
    → set_result result (js, chs) ≡ done r
    → IsOver n c r.1
unfolding set_result
set_result-IsOver n c result js chs r over e =
    let there : chs ≡ r.1 = ground (arith, e) in subst (IsOver n c) there over

pub close_watchers-IsOver :
    (n c : ℕ) (drained : ℕ → Bool) (js : JobState) (chs : Channels) (r : Shared)
    → IsOver n c chs
    → close_watchers drained (js, chs) ≡ done r
    → IsOver n c r.1
unfolding close_watchers
close_watchers-IsOver n c drained js chs r over e =
    let (shut, closing, same) = bind-done (close_all drained js.watchers chs) _ r e in
    let there : shut ≡ r.1 = ground (arith, same) in
    subst (IsOver n c) there (close_all-IsOver n c drained js.watchers chs shut over closing)

pub remove_watcher-IsOver :
    (n c d : ℕ) (js : JobState) (chs : Channels) (r : Shared)
    → IsOver n c chs
    → remove_watcher d (js, chs) ≡ done r
    → IsOver n c r.1
unfolding remove_watcher
remove_watcher-IsOver n c d js chs r over e = elim (Bool-cases (is_among d js.watchers)) [
  | inl listed ↦
      let closing : (close d chs >>= λ shut.
      done (record js { watchers = remove_channel d js.watchers }, shut))
          ≡ done r =
        ground (arith, e, listed) in
      let (shut, closed_, same) = bind-done (close d chs) _ r closing in
      let there : shut ≡ r.1 = ground (arith, same) in
      subst (IsOver n c) there (close-IsOver n c d chs shut over closed_)
  | inr unlisted ↦
      let there : chs ≡ r.1 = ground (arith, e, unlisted) in subst (IsOver n c) there over
]
