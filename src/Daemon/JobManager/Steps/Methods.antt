-- ===== src/Daemon/JobManager/Steps/Methods.antt =====
-- Each method of a job's state keeps its job's part of the invariant.
use buildozer.Common.{
  subst, ℕ, Bool, true, false, String, some, List, [], ◌∷◌, ◌≡◌, refl, sym, ◌∙◌, ◌==◌, All, arith,
  inl, inr, Bool-cases,
}
use buildozer.Errors.{done, ◌>>=◌}
use buildozer.Proto.Job.{JobResult, JobStatus}
use buildozer.Daemon.Channels.{Channels, is_among, notify}
use buildozer.Daemon.Channels.Effects.{
  IsBounded, HasSameChannels, IsOpen, notify-open, HasClosed, AreDistinct, close-open,
  close_all-open,
}
use buildozer.Daemon.JobState.{
  JobState, update_progress, progressed, remove_watcher, remove_channel, close_watchers,
}
use buildozer.Daemon.JobManager.{OutputProgress, logged, progress_callback, set_result}
use buildozer.Daemon.JobManager.Steps.Kept.{IsOf, Watches, Kept}

-- The watchers are open.
pub All-IsOpen :
    (owner : ℕ → String) (chs : Channels) (id : String) (cs : List ℕ)
    → All (IsOf owner chs id) cs
    → All (IsOpen chs) cs
All-IsOpen owner chs id [] h = h
All-IsOpen owner chs id (c ∷ cs) (h, hs) = (h.1, All-IsOpen owner chs id cs hs)

pub All-IsOf-same :
    (owner : ℕ → String) (chs new : Channels) (id : String) (cs : List ℕ)
    → HasSameChannels chs new
    → All (IsOf owner chs id) cs
    → All (IsOf owner new id) cs
All-IsOf-same owner chs new id [] s h = h
All-IsOf-same owner chs new id (c ∷ cs) s ((a, b, e), hs) =
    ((omega (arith, s.0, a), s.1 c ∙ b, e), All-IsOf-same owner chs new id cs s hs)

-- A method that notifies the watchers and keeps their list.
pub Kept-notify :
    (owner : ℕ → String) (chs : Channels) (id : String) (js : JobState)
    (changed : Channels → JobState)
    → ((new : Channels) → (changed new).watchers ≡ js.watchers)
    → IsBounded chs
    → Watches owner chs id js.watchers
    → Kept owner chs id (notify js.watchers chs >>= λ told. done (changed told, told))
unfolding is_among
Kept-notify owner chs id js changed same bounded (h, d) =
    let (new, e, s, b) =
      notify-open js.watchers chs (All-IsOpen owner chs id js.watchers h) bounded in
    record {
      new = (changed new, new);
      returns = rw e refl;
      gone = [];
      own = _;
      shut = s;
      small = b;
      watches =
          subst (λ cs. Watches owner new id cs) (sym (same new))
            (All-IsOf-same owner chs new id js.watchers s h, d);
    }

pub Kept-update_progress :
    (now : ℕ) (status : JobStatus) (message : String) (owner : ℕ → String) (chs : Channels)
    (id : String) (js : JobState)
    → IsBounded chs
    → Watches owner chs id js.watchers
    → Kept owner chs id (update_progress now status message (js, chs))
unfolding update_progress
Kept-update_progress now status message owner chs id js bounded watches =
    Kept-notify owner chs id js (λ c. record js { progress = progressed now status message js })
      (λ c. refl) bounded watches

pub Kept-progress_callback :
    (o : OutputProgress) (owner : ℕ → String) (chs : Channels) (id : String) (js : JobState)
    → IsBounded chs
    → Watches owner chs id js.watchers
    → Kept owner chs id (progress_callback o (js, chs))
unfolding progress_callback
Kept-progress_callback o owner chs id js bounded watches =
    Kept-notify owner chs id js (λ c. logged o js) (λ c. ground arith) bounded watches

owners :
    (owner : ℕ → String) (chs : Channels) (id : String) (cs : List ℕ)
    → All (IsOf owner chs id) cs
    → All (λ c. owner c ≡ id) cs
owners owner chs id [] h = h
owners owner chs id (c ∷ cs) (h, hs) = (h.2, owners owner chs id cs hs)

pub Kept-close_watchers :
    (drained : ℕ → Bool) (owner : ℕ → String) (chs : Channels) (id : String) (js : JobState)
    → IsBounded chs
    → Watches owner chs id js.watchers
    → Kept owner chs id (close_watchers drained (js, chs))
unfolding close_watchers
Kept-close_watchers drained owner chs id js bounded (h, d) =
    let (new, e, s, b) =
      close_all-open drained js.watchers chs (All-IsOpen owner chs id js.watchers h) d bounded in
    record {
      new = (record js { watchers = [] }, new);
      returns = rw (e, close_watchers) refl;
      gone = js.watchers;
      own = owners owner chs id js.watchers h;
      shut = s;
      small = b;
      watches = (_, _);
    }

pub Kept-set_result :
    (r : JobResult) (owner : ℕ → String) (chs : Channels) (id : String) (js : JobState)
    → IsBounded chs
    → Watches owner chs id js.watchers
    → Kept owner chs id (set_result r (js, chs))
unfolding set_result is_among
Kept-set_result r owner chs id js bounded watches = record {
  new = (record js { result = some r }, chs);
  returns = refl;
  gone = [];
  own = _;
  shut = (refl, λ d. refl);
  small = bounded;
  watches = watches;
}

-- A listed channel has what every listed channel has.
pub at_listed : (P : ℕ → Type 0) (c : ℕ) (cs : List ℕ) → is_among c cs ≡ true → All P cs → P c
unfolding is_among
at_listed P c [] e h = absurd (ground arith)
at_listed P c (d ∷ cs) e (h, hs) = elim (Bool-cases (d == c)) [
  | inl same ↦ let there : d ≡ c = ground (arith, same) in subst P there h
  | inr differs ↦ at_listed P c cs (ground (arith, e, differs)) hs
]

is_among-remove_channel :
    (target c : ℕ) (cs : List ℕ)
    → is_among c cs ≡ false
    → is_among c (remove_channel target cs) ≡ false
unfolding is_among remove_channel
is_among-remove_channel target c [] h = refl
is_among-remove_channel target c (d ∷ cs) h = ground (arith, is_among-remove_channel target c cs, h)

-- What is left is distinct, and leaves the removed channel out.
remove_channel-AreDistinct :
    (target : ℕ) (cs : List ℕ)
    → AreDistinct cs
    → AreDistinct (remove_channel target cs) × (is_among target (remove_channel target cs) ≡ false)
unfolding is_among remove_channel
remove_channel-AreDistinct target [] h = (h, refl)
remove_channel-AreDistinct target (d ∷ cs) (fresh, h) = elim (Bool-cases (d == target)) [
  | inl same ↦ rw same (h, ground (arith, same, fresh))
  | inr differs ↦
      let (k, out) = remove_channel-AreDistinct target cs h in
      rw differs ((is_among-remove_channel target d cs fresh, k), ground (arith, differs, out))
]

remove_channel-All :
    (P : ℕ → Type 0) (target : ℕ) (cs : List ℕ) → All P cs → All P (remove_channel target cs)
unfolding remove_channel
remove_channel-All P target [] h = h
remove_channel-All P target (d ∷ cs) (h, hs) = elim (Bool-cases (d == target)) [
  | inl same ↦ rw same hs
  | inr differs ↦ rw differs (h, remove_channel-All P target cs hs)
]

-- Those that are not closed with one channel stay the job's.
All-IsOf-left :
    (owner : ℕ → String) (chs new : Channels) (id : String) (target : ℕ) (cs : List ℕ)
    → HasClosed (target ∷ []) chs new
    → is_among target cs ≡ false
    → All (IsOf owner chs id) cs
    → All (IsOf owner new id) cs
unfolding is_among
All-IsOf-left owner chs new id target [] s out h = h
All-IsOf-left owner chs new id target (c ∷ cs) s out ((a, b, e), hs) = (
  (omega (arith, s.0, a), ground (arith, s.1 c, b, out), e),
  All-IsOf-left owner chs new id target cs s (ground (arith, out)) hs,
)

pub Kept-remove_watcher :
    (target : ℕ) (owner : ℕ → String) (chs : Channels) (id : String) (js : JobState)
    → IsBounded chs
    → Watches owner chs id js.watchers
    → Kept owner chs id (remove_watcher target (js, chs))
unfolding remove_watcher
Kept-remove_watcher target owner chs id js bounded (h, d) =
    elim (Bool-cases (is_among target js.watchers)) [
      | inl listed ↦
          let own = at_listed (IsOf owner chs id) target js.watchers listed h in
          let (new, e, s, b) = close-open target chs own.1 bounded in
          let (left, out) = remove_channel-AreDistinct target js.watchers d in
          record {
            new = (record js { watchers = remove_channel target js.watchers }, new);
            returns = rw listed (rw e refl);
            gone = target ∷ [];
            own = (own.2, _);
            shut = s;
            small = b;
            watches = (
              All-IsOf-left owner chs new id target (remove_channel target js.watchers) s out
                  (remove_channel-All (IsOf owner chs id) target js.watchers h),
              left,
            );
          }
      | inr unlisted ↦ record {
        new = (js, chs);
        returns = rw unlisted refl;
        gone = [];
        own = _;
        shut = (refl, λ c. refl);
        small = bounded;
        watches = (h, d);
      }
    ]
