-- ===== src/SyncManager/Attempts.antt =====
-- How often a declaration is sent, and to which devices.
use octavia_f5_provider_driv.Base.{
  ℕ, zero, suc, ◌≤◌, String, Bool, false, ◌≡◌, refl, sym, append-nil, Option, some, List, [], ◌∷◌,
  ◌++◌, arith, length, All, All-weaken, Result, ok, err, connection_error, timeout, retry_error,
  Bool-cases, inl, inr,
}
use octavia_f5_provider_driv.SyncManager.{
  Device, Conf, SyncManager, Post, World, Update, Sent, bigip, force_failover, update_post,
  answered, count, after_hook, retry, is_connection_error, runs_hook, with_failover, tenant_update,
  passive,
}

-- Every request is the one that the body built, and there are at most as many as attempts.
abbrev Posts : ℕ → Result Post → List Post → Type 0
Posts n p ps = (length ps ≤ n) × All (λ q. ok q ≡ p) ps

answered-Posts :
    (n : ℕ) (p : Post) (rest : Sent) (a : Result Bool)
    → Posts n (ok p) rest.posts
    → Posts (suc n) (ok p) (answered p rest a).posts
unfolding answered
answered-Posts n p rest a h = elim (Bool-cases (is_connection_error a)) [
  | inl again ↦ rw again (omega (arith, h.0), (refl, h.1))
  | inr done ↦ rw done (omega arith, (refl, tt))
]

retry-Posts : (w : World) (left n : ℕ) (p : Result Post) → Posts left p (retry w left n p).posts
unfolding retry
retry-Posts w zero n p = (omega arith, tt)
retry-Posts w (suc left) n (err e) = (omega arith, tt)
retry-Posts w (suc left) n (ok p) =
    answered-Posts left p (retry w left (suc n) (ok p)) (w.post n p)
      (retry-Posts w left (suc n) (ok p))

abbrev pub repeat : ℕ → Post → List Post
repeat zero p = []
repeat (suc n) p = p ∷ repeat n p

retry-connection_errors :
    (w : World) (left n : ℕ) (p : Post)
    → ((k : ℕ) → w.post k p ≡ err connection_error)
    → retry w left n (ok p) ≡ record { posts = repeat left p; result = err retry_error }
unfolding retry answered
retry-connection_errors w zero n p h = refl
retry-connection_errors w (suc left) n p h = rw (h n, retry-connection_errors w left (suc n) p h)

-- The body of `tenant_update` posts to the device that it names, or to the target.
update_post-device :
    (conf : Conf) (w : World) (s : SyncManager) (u : Update) (q : Post)
    → ok q ≡ update_post conf w s u
    → q.device ≡ bigip s u.device
unfolding update_post
update_post-device conf w s u q h = ground arith

-- If every request raises ConnectionError, a declaration is sent 15 times to the same device, and the
-- call ends in a RetryError. That is none of the exceptions that the hook is run for: the target is
-- never changed.
pub tenant_update-connection_errors :
    (conf : Conf) (w : World) (s : SyncManager) (u : Update) (p : Post)
    → update_post conf w s u ≡ ok p
    → ((n : ℕ) → w.post n p ≡ err connection_error)
    → tenant_update conf w s u ≡ (s, record { posts = repeat 15 p; result = err retry_error })
unfolding tenant_update with_failover after_hook runs_hook
tenant_update-connection_errors conf w s u p e h = rw (e, retry-connection_errors w 15 0 p h)

retry_once :
    (w : World) (left n : ℕ) (p : Post)
    → is_connection_error (w.post n p) ≡ false
    → retry w (suc left) n (ok p) ≡ record { posts = p ∷ []; result = w.post n p }
unfolding retry answered
retry_once w left n p h = rw h

force_failover-passive :
    (conf : Conf) (s : SyncManager) (other : Device)
    → conf.migration ≡ false
    → passive s ≡ some other
    → force_failover conf s ≡ ok (record s { active = other })
unfolding force_failover passive
force_failover-passive conf s other m o = ground arith

-- Outside migration, if the first request raises Timeout and a client stands beside the target, that
-- one becomes the target, the declaration is built again and sent once more, and the call's result
-- is that of this second request, which returns here. A call that names a device builds it for the
-- device that it names, also the second time.
pub tenant_update-timeout :
    (conf : Conf) (w : World) (s : SyncManager) (u : Update) (p p' : Post) (other : Device)
    (r : Bool)
    → conf.migration ≡ false
    → passive s ≡ some other
    → update_post conf w s u ≡ ok p
    → update_post conf w (record s { active = other }) u ≡ ok p'
    → w.post 0 p ≡ err timeout
    → w.post 1 p' ≡ ok r
    → tenant_update conf w s u
      ≡ (record s { active = other }, record { posts = p ∷ p' ∷ []; result = ok r })
unfolding tenant_update with_failover after_hook runs_hook
tenant_update-timeout conf w s u p p' other r m o e e' t t' = rw (
  e,
  retry_once w 14 0 p (rw t),
  t,
  force_failover-passive conf s other m o,
  e',
  retry_once w 14 1 p' (rw t'),
  t',
)

-- A request goes to the device that the manager finds for the name.
abbrev pub GoesTo : SyncManager → Option String → Post → Type 0
GoesTo s device q = q.device ≡ bigip s device

retry-GoesTo :
    (conf : Conf) (w : World) (s : SyncManager) (u : Update) (n : ℕ)
    → All (GoesTo s u.device) (retry w 15 n (update_post conf w s u)).posts
retry-GoesTo conf w s u n =
    All-weaken (λ q. ok q ≡ update_post conf w s u) (GoesTo s u.device)
      (retry w 15 n (update_post conf w s u)).posts (update_post-device conf w s u)
      (retry-Posts w 15 n (update_post conf w s u)).1

-- The requests of a call, split at the failover: the first run and the second one.
pub record SentTo (s s' : SyncManager) (device : Option String) (ps : List Post) : Type 0 where
  pub before : List Post
  pub after : List Post
  pub splits : ps ≡ before ++ after
  pub before_goes : All (GoesTo s device) before
  pub after_goes : All (GoesTo s' device) after
  pub before_bound : length before ≤ 15
  pub after_bound : length after ≤ 15

first_only :
    (conf : Conf) (w : World) (s : SyncManager) (u : Update)
    → SentTo s s u.device (retry w 15 0 (update_post conf w s u)).posts
first_only conf w s u = record {
  before = (retry w 15 0 (update_post conf w s u)).posts;
  after = [];
  splits = sym (append-nil _);
  before_goes = retry-GoesTo conf w s u 0;
  after_goes = tt;
  before_bound = (retry-Posts w 15 0 (update_post conf w s u)).0;
  after_bound = omega arith;
}

after_hook-SentTo :
    (conf : Conf) (w : World) (s : SyncManager) (u : Update) (r : Result SyncManager)
    → (let o =
          after_hook w
            (λ s'. update_post conf w s' u)
            s
            (retry w 15 0 (update_post conf w s u))
            r in
        SentTo s o.0 u.device o.1.posts)
unfolding after_hook
after_hook-SentTo conf w s u (err e) = first_only conf w s u
after_hook-SentTo conf w s u (ok s') =
    let first = retry w 15 0 (update_post conf w s u) in
    let second = retry w 15 (count first.posts) (update_post conf w s' u) in
    record {
      before = first.posts;
      after = second.posts;
      splits = refl;
      before_goes = retry-GoesTo conf w s u 0;
      after_goes = retry-GoesTo conf w s' u (count first.posts);
      before_bound = (retry-Posts w 15 0 (update_post conf w s u)).0;
      after_bound = (retry-Posts w 15 (count first.posts) (update_post conf w s' u)).0;
    }

-- A call sends at most 15 requests, each to the device that it names, or to the target if it names
-- none that is known. At most 15 more may follow, in the same way with the target after the call.
pub tenant_update-SentTo :
    (conf : Conf) (w : World) (s : SyncManager) (u : Update)
    → SentTo s (tenant_update conf w s u).0 u.device (tenant_update conf w s u).1.posts
unfolding tenant_update with_failover
tenant_update-SentTo conf w s u =
    elim (Bool-cases (runs_hook (retry w 15 0 (update_post conf w s u)).result)) [
      | inl hook ↦ rw hook (after_hook-SentTo conf w s u (force_failover conf s))
      | inr done ↦ rw done (first_only conf w s u)
    ]
