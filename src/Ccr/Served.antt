-- ===== src/Ccr/Served.antt =====
-- Any calls of the broker, one after the other.
use eidetic_daemon.Prelude.{
  ℤ, arith, ◌≡◌, refl, ap, ◌∙◌, Bool, Option-cases, inl, inr, true, Option, some, List, [], ◌∷◌,
  ◌++◌,
}
use eidetic_daemon.TextSearch.{Text}
use eidetic_daemon.Dict.{lookup, put, remove}
use eidetic_daemon.Dict.Lookup.{
  lookup-put, lookup-remove, lookup-changed, lookup-absent, lookup-gone,
}
use eidetic_daemon.Dict.Distinct.{
  put-Distinct, remove-Distinct, map_values, without, lookup-map_values, map_values-Distinct,
  lookup-without, without-Distinct, put-AllValues, remove-AllValues, lookup-AllValues,
  map_values-AllValues, without-AllValues,
}
use eidetic_daemon.Ccr.{
  WakeEvent, Subscription, Broker, new_subscription, is_stale, taken, subscribe, unsubscribe,
  heartbeat, wake_active, sweep, read, Op, subscribes, unsubscribes, heartbeats, wakes, sweeps,
  reads, step, run,
}
use eidetic_daemon.Ccr.Mailbox.{
  delivered, beaten, mail, mail_all, Fit, Serving, delivered-Fit, taken-Fit, wake_each-delivered,
  sweep_each-without,
}

-- An operation does not panic, and does to each subscription what it does to one alone.
pub record Serves (op : Op) (b : Broker) (r : Option Broker) : Type 0 where
  pub next : Broker
  pub returns : r ≡ some next
  pub serving : Serving next
  pub same_ttl : next.heartbeat_ttl ≡ b.heartbeat_ttl
  pub mailed : (id : Text) → lookup id next.subs ≡ mail b.heartbeat_ttl id op (lookup id b.subs)

-- An entry that is found is put back changed.
put-Serving :
    (id : Text) (s : Subscription) (left : List Subscription) (b : Broker)
    → Serving b
    → Fit s
    → Serving (record b { subs = put id s b.subs; left = left })
put-Serving id s left b h fit = record {
  distinct = put-Distinct id s b.subs h.distinct;
  fit = put-AllValues Fit id s b.subs fit h.fit;
}

subscribe-Serves :
    (i role : Text) (now : ℤ) (b : Broker)
    → Serving b
    → Serves (subscribes i role now) b (step (subscribes i role now) b)
unfolding step subscribe mail
subscribe-Serves i role now b h = record {
  next = subscribe i role now b;
  returns = refl;
  serving = put-Serving i (new_subscription role now) _ b h (refl, omega arith);
  same_ttl = refl;
  mailed = λ id. lookup-put i id (new_subscription role now) b.subs;
}

unsubscribe-Serves :
    (i : Text) (b : Broker) → Serving b → Serves (unsubscribes i) b (step (unsubscribes i) b)
unfolding step unsubscribe mail
unsubscribe-Serves i b h = elim (Option-cases (lookup i b.subs)) [
  | inl e ↦ record {
    next = b;
    returns = simp (e, step, unsubscribe) refl;
    serving = h;
    same_ttl = refl;
    mailed = λ id. lookup-gone i id b.subs e;
  }
  | inr (s, e) ↦ record {
    next = record b { subs = remove i b.subs; left = record s { closed = true } ∷ b.left };
    returns = simp (e, (lookup-AllValues Fit i s b.subs h.fit e).0, step, unsubscribe) refl;
    serving = record {
      distinct = remove-Distinct i b.subs h.distinct;
      fit = remove-AllValues Fit i b.subs h.fit;
    };
    same_ttl = refl;
    mailed = λ id. lookup-remove i id b.subs;
  }
]

heartbeat-Serves :
    (i : Text) (now : ℤ) (b : Broker)
    → Serving b
    → Serves (heartbeats i now) b (step (heartbeats i now) b)
unfolding step heartbeat mail
heartbeat-Serves i now b h = elim (Option-cases (lookup i b.subs)) [
  | inl e ↦ record {
    next = b;
    returns = simp (e, step, heartbeat) refl;
    serving = h;
    same_ttl = refl;
    mailed = λ id. lookup-absent (beaten now) i id b.subs e;
  }
  | inr (s, e) ↦ record {
    next = record b { subs = put i (beaten now s) b.subs };
    returns = simp (e, step, heartbeat) refl;
    serving = put-Serving i (beaten now s) b.left b h (lookup-AllValues Fit i s b.subs h.fit e);
    same_ttl = refl;
    mailed = λ id. lookup-changed (beaten now) i id s b.subs e;
  }
]

wake_active-Serves :
    (e : WakeEvent) (b : Broker) → Serving b → Serves (wakes e) b (step (wakes e) b)
unfolding step wake_active mail
wake_active-Serves e b h = record {
  next = record b { subs = map_values (delivered e) b.subs };
  returns = rw (step, wake_active, wake_each-delivered e b.subs h.fit) refl;
  serving = record {
    distinct = map_values-Distinct (delivered e) b.subs h.distinct;
    fit = map_values-AllValues Fit (delivered e) b.subs (delivered-Fit e) h.fit;
  };
  same_ttl = refl;
  mailed = λ id. lookup-map_values (delivered e) id b.subs;
}

sweep-Serves : (now : ℤ) (b : Broker) → Serving b → Serves (sweeps now) b (step (sweeps now) b)
unfolding step sweep mail
sweep-Serves now b h =
    let stale : Subscription → Bool = is_stale b.heartbeat_ttl now in
    let (gone, e) = sweep_each-without b.heartbeat_ttl now b.subs h.fit in
    record {
      next = record b { subs = without stale b.subs; left = gone ++ b.left };
      returns = rw (step, sweep, e) refl;
      serving = record {
        distinct = without-Distinct stale b.subs h.distinct;
        fit = without-AllValues Fit stale b.subs h.fit;
      };
      same_ttl = refl;
      mailed = λ id. lookup-without stale id b.subs h.distinct;
    }

read-Serves : (i : Text) (b : Broker) → Serving b → Serves (reads i) b (step (reads i) b)
unfolding step read mail
read-Serves i b h = elim (Option-cases (lookup i b.subs)) [
  | inl e ↦ record {
    next = b;
    returns = simp (e, step, read) refl;
    serving = h;
    same_ttl = refl;
    mailed = λ id. lookup-absent taken i id b.subs e;
  }
  | inr (s, e) ↦ record {
    next = record b { subs = put i (taken s) b.subs };
    returns = simp (e, step, read) refl;
    serving =
        put-Serving i (taken s) b.left b h (taken-Fit s (lookup-AllValues Fit i s b.subs h.fit e));
    same_ttl = refl;
    mailed = λ id. lookup-changed taken i id s b.subs e;
  }
]

pub step-Serves : (op : Op) (b : Broker) → Serving b → Serves op b (step op b)
step-Serves (subscribes i role now) b h = subscribe-Serves i role now b h
step-Serves (unsubscribes i) b h = unsubscribe-Serves i b h
step-Serves (heartbeats i now) b h = heartbeat-Serves i now b h
step-Serves (wakes e) b h = wake_active-Serves e b h
step-Serves (sweeps now) b h = sweep-Serves now b h
step-Serves (reads i) b h = read-Serves i b h

-- The broker after some calls, as each reader sees it.
pub record Served (ops : List Op) (b : Broker) (r : Option Broker) : Type 0 where
  pub last : Broker
  pub returns : r ≡ some last
  pub serving : Serving last
  pub mailed :
      (id : Text) → lookup id last.subs ≡ mail_all b.heartbeat_ttl id ops (lookup id b.subs)

-- From a broker of open channels that hold at most ten events each, no calls send to a closed channel
-- or close one twice; the channels in the map stay open and hold at most ten; and each subscription
-- is what the calls make of it alone: the events for its role that found room, in their order, from
-- when it subscribes until it leaves or is stale.
pub run-Served : (ops : List Op) (b : Broker) → Serving b → Served ops b (run ops b)
unfolding run mail_all
run-Served [] b h = record { last = b; returns = refl; serving = h; mailed = λ id. refl }
run-Served (op ∷ ops) b h =
    let one = step-Serves op b h in
    let rest = run-Served ops one.next one.serving in
    record {
      last = rest.last;
      returns = rw (run, one.returns) rest.returns;
      serving = rest.serving;
      mailed = λ id.
          rest.mailed id
          ∙ ap (λ ttl. mail_all ttl id ops (lookup id one.next.subs)) one.same_ttl
          ∙ ap (mail_all b.heartbeat_ttl id ops) (one.mailed id);
    }
