-- ===== src/Proc/Fork/Sleeping.antt =====
-- proc.c: a process that sleeps and is woken.
use os.Base.{
  ℕ, ◌≡◌, ◌≢◌, refl, ap, ◌∙◌, some, List, get_elem?, set, get_elem?-set_self, get_elem?-set_ne,
  get_elem?-lt,
}
use os.Base.Result.{ok}
use os.Proc.{Proc, Chan, null, sleeping, runnable}
use os.Proc.Table.{wake, wakeup1}
use os.Proc.Table.Wakeup.{chan_eq_refl, get_elem?-wakeup1, NoSleeper, NoSleeper-wakeup1}
use os.Proc.Fork.{sched, sleep_entry, sleep_exit, wakeup}

sleep_entry_at :
    (cur : ℕ) (chan : Chan) (procs : List Proc) (p : Proc)
    → get_elem? procs cur ≡ some p
    → sleep_entry cur chan procs ≡ ok (set procs cur (record p { chan = chan; state = sleeping }))
unfolding sleep_entry sched
sleep_entry_at cur chan procs p at =
    let q : Proc = record p { chan = chan; state = sleeping } in
    let at' : get_elem? (set procs cur q) cur ≡ some q =
      get_elem?-set_self procs cur q (get_elem?-lt procs cur at) in
    rw (sleep_entry, at, sched, at') refl

-- A process that goes to sleep on a channel is asleep on it and no one else is changed. After a
-- `wakeup` on this channel nobody sleeps on it and the process is RUNNABLE; the rest of `sleep`,
-- which runs once the process is switched to, clears its channel.
wakeup-sleep_entry :
    (cur : ℕ) (chan : Chan) (procs : List Proc) (p : Proc)
    → get_elem? procs cur ≡ some p
    → (asleep : List Proc) × (sleep_entry cur chan procs ≡ ok asleep)
      × (get_elem? asleep cur ≡ some (record p { chan = chan; state = sleeping }))
      × ((j : ℕ) → cur ≢ j → get_elem? asleep j ≡ get_elem? procs j)
      × NoSleeper chan (wakeup chan asleep)
      × (get_elem? (wakeup chan asleep) cur ≡ some (record p { chan = chan; state = runnable }))
      × ((after : List Proc) × (sleep_exit cur (wakeup chan asleep) ≡ ok after)
          × (get_elem? after cur ≡ some (record p { chan = null; state = runnable })))
unfolding wake wakeup sleep_exit
wakeup-sleep_entry cur chan procs p at =
    let q : Proc = record p { chan = chan; state = sleeping } in
    let asleep : List Proc = set procs cur q in
    let at' : get_elem? asleep cur ≡ some q =
      get_elem?-set_self procs cur q (get_elem?-lt procs cur at) in
    let awake : wake chan q ≡ record p { chan = chan; state = runnable } =
      rw (wake, chan_eq_refl chan) refl in
    let woken : get_elem? (wakeup1 chan asleep) cur
        ≡ some (record p { chan = chan; state = runnable }) =
      get_elem?-wakeup1 chan asleep cur at' ∙ ap some awake in
    (
      asleep,
      sleep_entry_at cur chan procs p at,
      at',
      λ j other. get_elem?-set_ne procs cur j q other,
      NoSleeper-wakeup1 chan asleep,
      woken,
      (
        set (wakeup1 chan asleep) cur (record p { chan = null; state = runnable }),
        rw (sleep_exit, wakeup, woken) refl,
        get_elem?-set_self (wakeup1 chan asleep) cur (record p { chan = null; state = runnable })
            (get_elem?-lt (wakeup1 chan asleep) cur woken),
      ),
    )
