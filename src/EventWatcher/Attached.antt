-- ===== src/EventWatcher/Attached.antt =====
-- `attached_` and the event base, whatever is done to a watcher; and the times that a timer is given.
use reechat_base.Base.{
  ℕ, ◌+◌, ◌*◌, ◌/◌, ◌%◌, ◌<◌, ◌≡◌, ◌⊎◌, inl, inr, refl, sym, ap, subst, ◌∙◌, Option, none, some,
  Bool, true, false, Bool-cases, if◌then◌else◌, arith,
}
use reechat_base.EventWatcher.{
  TimeVal, Event, EventWatcher, create, init, time_of, watch, free_event, cancel,
  set_cancel_callback, fire, after_del, after_add,
}

-- `event_del` of an event that is in the base succeeds.
pub data Step (w u : EventWatcher) : Type 0 where
  inits : (done result : Bool) → init w done ≡ some (u, result) → Step w u
  watches :
      (timeout_ms : ℕ) (added result : Bool)
      → watch w timeout_ms true added ≡ some (u, result)
      → Step w u
  cancels : cancel w ≡ some u → Step w u
  sets : u ≡ set_cancel_callback w → Step w u
  fires :
      (e : Event) (persistent : Bool)
      → w.event ≡ some e
      → e.added ≡ true
      → fire w persistent ≡ some u
      → Step w u

pub data Reach (w : EventWatcher) : EventWatcher → Type 0 where
  here : Reach w w
  next : {u x : EventWatcher} → Reach w u → Step u x → Reach w x

-- An event that the base holds is one that `attached_` speaks for, so that freeing it takes it out.
pub data Known (w : EventWatcher) : Type 0 where
  freed : w.event ≡ none → w.attached ≡ false → Known w
  outside : (e : Event) → w.event ≡ some e → e.added ≡ false → Known w
  inside : (e : Event) → w.event ≡ some e → w.attached ≡ true → Known w

Known-attached :
    {w : EventWatcher} (e : Event) → Known w → w.event ≡ some e → e.added ≡ true → w.attached ≡ true
Known-attached e (freed n a) h p = absurd cc
Known-attached e (outside f n a) h p =
    let same : f ≡ e = cc in absurd (let k = sym a ∙ ap (λ (x : Event). x.added) same ∙ p in cc)
Known-attached e (inside f n a) h p = a

-- What a call of `Watch` leaves.
watched : EventWatcher → Event → ℕ → Bool → EventWatcher
watched w e timeout_ms added = record w {
  event = some (after_add (if w.attached then after_del e true else e) (time_of timeout_ms) added);
  attached = added;
}

watch_lem :
    (w : EventWatcher) (e : Event) (timeout_ms : ℕ) (added : Bool)
    → w.event ≡ some e
    → watch w timeout_ms true added ≡ some (watched w e timeout_ms added, added)
unfolding watch watched
watch_lem w e timeout_ms added h = rw h refl

watch-none :
    (w : EventWatcher) (timeout_ms : ℕ) (added : Bool)
    → w.event ≡ none
    → watch w timeout_ms true added ≡ none
unfolding watch
watch-none w timeout_ms added h = rw h refl

-- Before it is added again, the event is out of the base.
taken_out :
    {w : EventWatcher} (e : Event)
    → Known w
    → w.event ≡ some e
    → (if w.attached then after_del e true else e).added ≡ false
taken_out {w} e k h = elim (Bool-cases w.attached) [
  | inl a ↦ ap (λ b. (if b then after_del e true else e).added) a
  | inr a ↦ ap (λ b. (if b then after_del e true else e).added) a ∙ not_added (Bool-cases e.added) a
]
  where
    not_added : ((e.added ≡ true) ⊎ (e.added ≡ false)) → w.attached ≡ false → e.added ≡ false
    not_added (inl p) a = absurd (let q = Known-attached e k h p in cc)
    not_added (inr p) a = p

Known-watched :
    {w : EventWatcher} (e : Event) (timeout_ms : ℕ) (added : Bool)
    → Known w
    → w.event ≡ some e
    → Known (watched w e timeout_ms added)
unfolding watched
Known-watched e timeout_ms true k h = inside _ refl refl
Known-watched e timeout_ms false k h = outside _ refl (taken_out e k h)

Known-same : {w u : EventWatcher} → Known w → u.event ≡ w.event → u.attached ≡ w.attached → Known u
Known-same (freed n a) p q = freed (p ∙ n) (q ∙ a)
Known-same (outside e n a) p q = outside e (p ∙ n) a
Known-same (inside e n a) p q = inside e (p ∙ n) (q ∙ a)

-- What a call of `Cancel` leaves.
canceled : EventWatcher → EventWatcher
canceled w = record w {
  event = none;
  attached = false;
  has_cancel_callback = false;
  cancel_calls = if w.has_cancel_callback then w.cancel_calls + 1 else w.cancel_calls;
}

cancel_by : (w : EventWatcher) (e : Event) → w.event ≡ some e → cancel w ≡ some (canceled w)
unfolding cancel free_event canceled
cancel_by w e h = elim (Bool-cases w.has_cancel_callback) [
  | inl c ↦ rw (h, c) refl
  | inr c ↦ rw (h, c) refl
]

cancel-none : (w : EventWatcher) → w.event ≡ none → cancel w ≡ none
unfolding cancel
cancel-none w h = rw h refl

-- Splitting on the event of a watcher.
event_cases : (w : EventWatcher) → (w.event ≡ none) ⊎ ((e : Event) × (w.event ≡ some e))
event_cases w = go w.event
  where
    go : (m : Option Event) → (m ≡ none) ⊎ ((e : Event) × (m ≡ some e))
    go none = inl refl
    go (some e) = inr (e, refl)

Known-watch :
    {w u : EventWatcher} {result : Bool} (timeout_ms : ℕ) (added : Bool)
    → Known w
    → watch w timeout_ms true added ≡ some (u, result)
    → Known u
Known-watch {w} {u} timeout_ms added k h = elim (event_cases w) [
  | inl n ↦ let stop = watch-none w timeout_ms added n in absurd cc
  | inr (e, s) ↦
      let ran = watch_lem w e timeout_ms added s in
      let same : watched w e timeout_ms added ≡ u = cc in
      subst Known same (Known-watched e timeout_ms added k s)
]

Known-cancel : (w u : EventWatcher) → cancel w ≡ some u → Known u
unfolding canceled
Known-cancel w u h = elim (event_cases w) [
  | inl n ↦ let stop = cancel-none w n in absurd cc
  | inr (e, s) ↦
      let ran = cancel_by w e s in
      let same : canceled w ≡ u = cc in subst Known same (freed refl refl)
]

fire_lem :
    (w : EventWatcher) (e : Event) (persistent : Bool)
    → w.event ≡ some e
    → fire w persistent ≡ some (record w { event = some (record e { added = persistent }) })
unfolding fire
fire_lem w e persistent h = rw h refl

Known-fire :
    {w u : EventWatcher} (e : Event) (persistent : Bool)
    → Known w
    → w.event ≡ some e
    → e.added ≡ true
    → fire w persistent ≡ some u
    → Known u
Known-fire {w} {u} e persistent k s p h =
    let ran = fire_lem w e persistent s in
    let same : record w { event = some (record e { added = persistent }) } ≡ u = cc in
    subst Known same (inside _ refl (Known-attached e k s p))

Known-init :
    {w u : EventWatcher} (done result : Bool) → Known w → init w done ≡ some (u, result) → Known u
unfolding init
Known-init {w} {u} true result k h = elim (event_cases w) [
  | inl n ↦ absurd (ground (arith, n, h))
  | inr (e, s) ↦ elim (Bool-cases e.added) [
    | inl a ↦ absurd (ground (arith, s, a, h))
    | inr a ↦
        let same : record w { event = some (record e { added = false }); opened = true } ≡ u =
          ground (arith, s, a, h) in
        subst Known same (outside (record e { added = false }) refl refl)
  ]
]
Known-init {w} {u} false result k h =
    let same : record w { opened = false } ≡ u = cc in subst Known same (Known-same k refl refl)

Known-Step : {w u : EventWatcher} → Known w → Step w u → Known u
unfolding set_cancel_callback
Known-Step k (inits done result e) = Known-init done result k e
Known-Step k (watches timeout_ms added result e) = Known-watch timeout_ms added k e
Known-Step k (cancels e) = Known-cancel _ _ e
Known-Step k (sets e) = subst Known (sym e) (Known-same k refl refl)
Known-Step k (fires e persistent s p h) = Known-fire e persistent k s p h

Reach-Known : {w : EventWatcher} → Reach create w → Known w
Reach-Known here = outside _ refl refl
Reach-Known (next r step) = Known-Step (Reach-Known r) step

-- Whatever is done to a new watcher, and however often it is watched again: an event that is in the base
-- is one that `attached_` says is there, so that `FreeEvent` takes it out before it deletes it.
pub Reach-attached :
    {w : EventWatcher} (e : Event)
    → Reach create w
    → w.event ≡ some e
    → e.added ≡ true
    → w.attached ≡ true
Reach-attached e r s p = Known-attached e (Reach-Known r) s p

-- `Cancel` of a watcher that has its event deletes it, calls the cancel callback if there is one, and
-- clears it; a second `Cancel` fails its `assert`, so that the callback is called once at most.
pub cancel-cancel :
    (w : EventWatcher) (e : Event)
    → w.event ≡ some e
    → (u : EventWatcher) × (cancel w ≡ some u)
      × (u.cancel_calls ≡ (if w.has_cancel_callback then w.cancel_calls + 1 else w.cancel_calls))
      × (u.has_cancel_callback ≡ false)
      × (cancel u ≡ none)
unfolding canceled
cancel-cancel w e h = (canceled w, cancel_by w e h, refl, refl, cancel-none (canceled w) refl)

-- The seconds and microseconds of `Watch` are the milliseconds asked for, and the microseconds are less
-- than a second.
pub time_of_lem :
    (timeout_ms : ℕ)
    → 0 < timeout_ms
    → (t : TimeVal) × (time_of timeout_ms ≡ some t)
      × (t.tv_sec * 1000000 + t.tv_usec ≡ timeout_ms * 1000)
      × (t.tv_usec < 1000000)
time_of_lem timeout_ms h = (
  record { tv_sec = timeout_ms / 1000; tv_usec = timeout_ms % 1000 * 1000 },
  ground arith,
  omega arith,
  omega arith,
)
