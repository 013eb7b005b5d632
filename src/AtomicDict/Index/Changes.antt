-- ===== src/AtomicDict/Index/Changes.antt =====
-- How the invariant of the index and its contents pass from one state of a table to the next.
use cereggii.Common.{ℕ, ◌<◌, false, some, ◌≡◌, sym, ◌∙◌, arith}
use cereggii.AtomicDict.Runtime.{Object, Runtime, Entry, Meta, size_of}
use cereggii.AtomicDict.Node.{parse_node_from_raw, is_empty, check_tag, distance0_of}
use cereggii.AtomicDict.Index.{node_at, entry_at, IsLive, IsPlaced, Holds}
use native.Mathlib.Nat.{mod-lt, one-le-pow}

-- The same table with another index and other pages.
abbrev pub with_contents : Meta → (ℕ → ℕ) → (ℕ → ℕ → Entry) → Meta
with_contents m index pages = record m { index = index; pages = pages }

module _ (py : Runtime) (m : Meta) (index : ℕ → ℕ) (pages : ℕ → ℕ → Entry) where
  abbrev changed : Meta
  changed = with_contents m index pages

  module _ (q : ℕ) (word : index q ≡ m.index q) where
    pub kept_live : IsLive m q → IsLive changed q
    unfolding parse_node_from_raw
    kept_live live = record {
      within = live.within;
      filled = rw word live.filled;
      kept = rw word live.kept;
    }

    pub kept_live_back : IsLive changed q → IsLive m q
    unfolding parse_node_from_raw
    kept_live_back live = record {
      within = live.within;
      filled = rw word at live.filled;
      kept = rw word at live.kept;
    }

    -- A slot whose word, key and hash stay, with a value, stays in place if no slot is emptied.
    pub kept_place :
        (value : Object)
        → (entry_at changed q).key ≡ (entry_at m q).key
        → (entry_at changed q).hash ≡ (entry_at m q).hash
        → (entry_at changed q).value ≡ some value
        → ((p : ℕ)
            → p < size_of m
            → is_empty (node_at m p) ≡ false
            → is_empty (node_at changed p) ≡ false)
        → IsPlaced py m q
        → IsPlaced py changed q
    unfolding distance0_of check_tag parse_node_from_raw
    kept_place value key hash has fills place = record {
      key = place.key;
      value = value;
      has_key = key ∙ place.has_key;
      has_value = has;
      hashed = rw hash place.hashed;
      tagged = rw (hash, word) place.tagged;
      steps = place.steps;
      steps_lt = place.steps_lt;
      arrives = rw hash place.arrives;
      near = rw word place.near;
      chain = λ j lt.
          rw hash (fills _ (mod-lt _ (one-le-pow m.log_size 2 (omega arith))) (place.chain j lt));
    }

    pub kept_Holds :
        (key value value' : Object)
        → (entry_at changed q).key ≡ (entry_at m q).key
        → (entry_at changed q).value ≡ some value'
        → Holds py m key value q
        → Holds py changed key value' q
    kept_Holds key value value' same has h = record {
      live = kept_live h.live;
      stored_key = h.stored_key;
      has_key = same ∙ h.has_key;
      equal = h.equal;
      has_value = has;
    }

    pub kept_Holds_back :
        (key value value' : Object)
        → (entry_at changed q).key ≡ (entry_at m q).key
        → (entry_at m q).value ≡ some value'
        → Holds py changed key value q
        → Holds py m key value' q
    kept_Holds_back key value value' same has h = record {
      live = kept_live_back h.live;
      stored_key = h.stored_key;
      has_key = sym same ∙ h.has_key;
      equal = h.equal;
      has_value = has;
    }
