-- ===== src/Bypass/Init/Once.antt =====
-- The initialization of Expand by the wrappers of src/bypass/xpn_bypass.c.
use xpn.Prelude.{◌≡◌, refl, true, false, ◌==◌, if◌then◌else◌, Bool-cases, inl, inr}
use xpn.Prelude.Int.{pos, lt_ℤ}
use xpn.Bypass.{Env, Sys, Xpn}
use xpn.Bypass.Fds.{fdstable_realloc}
use xpn.Bypass.Init.{keep_init, start_expand, read_initcalled, fdsdirtable_realloc}

module _ {S : Type 0} (env : Env S) where
  read_initcalled_getenv : (w : Sys S) → (read_initcalled w).init_called_getenv ≡ true
  unfolding read_initcalled
  read_initcalled_getenv w = elim (Bool-cases w.init_called_getenv) [
    | inl e ↦ rw e refl
    | inr e ↦ rw e refl
  ]

  keep_init_called :
      (w : Sys S) → w.init_called_getenv ≡ true → (w.init_called == 0) ≡ false → keep_init env w ≡ w
  unfolding keep_init read_initcalled
  keep_init_called w getenv called = rw (getenv, called) refl

  started :
      ((s : S) → lt_ℤ (env.xpn Xpn.init s).1 (pos 0) ≡ false)
      → (u : Sys S) → u.init_called_getenv ≡ true
      → (let k = if u.init_called == 0 then start_expand env u else u in
          (k.init_called_getenv ≡ true) × ((k.init_called == 0) ≡ false))
  unfolding start_expand fdsdirtable_realloc fdstable_realloc
  started starts u getenv = elim (Bool-cases (u.init_called == 0)) [
    | inl new ↦ (rw new getenv, rw (new, starts (env.setenv 1 u.os)) refl)
    | inr called ↦ (rw called getenv, rw called called)
  ]

  keep_init-started :
      ((s : S) → lt_ℤ (env.xpn Xpn.init s).1 (pos 0) ≡ false)
      → (u : Sys S)
      → ((keep_init env u).init_called_getenv ≡ true)
        × (((keep_init env u).init_called == 0) ≡ false)
  unfolding keep_init
  keep_init-started h u = started h (read_initcalled u) (read_initcalled_getenv u)

  -- If Expand can be initialized, it is initialized once: a wrapper that runs after another one finds
  -- it initialized and changes nothing.
  pub keep_init_twice :
      ((s : S) → lt_ℤ (env.xpn Xpn.init s).1 (pos 0) ≡ false)
      → (w : Sys S) → keep_init env (keep_init env w) ≡ keep_init env w
  keep_init_twice starts w =
      let (getenv, called) = keep_init-started starts w in
      keep_init_called (keep_init env w) getenv called
