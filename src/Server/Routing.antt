-- ===== src/Server/Routing.antt =====
-- The topics of topics.rs, and what tells them apart.
use aquilo_offline.Base.{◌≡◌, ◌≢◌, ap, arith, [], ◌∷◌, ◌++◌, Str, codes, unwrap_or, get_elem?, ℕ}
use aquilo_offline.Server.Topics.{Topics, new_topics}

append_cancel : (xs : Str) {ys zs : Str} → xs ++ ys ≡ xs ++ zs → ys ≡ zs
append_cancel [] e = e
append_cancel (x ∷ xs) e = append_cancel xs (ap tail e)
  where
    tail : Str → Str
    tail [] = []
    tail (c ∷ s) = s

-- What tells a receiver's topics apart: those that messages come in on, and those published on.
pub record AreDistinct (t : Topics) : Type 0 where
  pub read_log : t.read ≢ t.log
  pub read_connection : t.read ≢ t.connection
  pub log_connection : t.log ≢ t.connection
  pub version_state : t.version ≢ t.state
  pub radar_params_state : t.radar_params ≢ t.state
  pub version_read : t.version ≢ t.read
  pub version_log : t.version ≢ t.log
  pub version_connection : t.version ≢ t.connection
  pub radar_params_read : t.radar_params ≢ t.read
  pub radar_params_log : t.radar_params ≢ t.log
  pub radar_params_connection : t.radar_params ≢ t.connection
  pub state_read : t.state ≢ t.read
  pub state_log : t.state ≢ t.log
  pub state_connection : t.state ≢ t.connection

-- Two texts with different bytes at a position are different.
byte_at : ℕ → Str → ℕ
byte_at i s = unwrap_or (get_elem? s i) 0

-- The topics of a sensor end where they differ.
ends_equal :
    (rid a b : Str)
    → codes "/users/" ++ (rid ++ (codes "/sensors/" ++ (rid ++ a)))
      ≡ codes "/users/" ++ (rid ++ (codes "/sensors/" ++ (rid ++ b)))
    → a ≡ b
ends_equal rid a b e =
    append_cancel rid
      (append_cancel (codes "/sensors/") (append_cancel rid (append_cancel (codes "/users/") e)))

-- Equal topics of a user are equal at each position behind its id.
behind_user :
    (rid : Str) (i : ℕ) (a b : Str)
    → codes "/users/" ++ (rid ++ a) ≡ codes "/users/" ++ (rid ++ b)
    → byte_at i a ≡ byte_at i b
behind_user rid i a b e = ap (byte_at i) (append_cancel rid (append_cancel (codes "/users/") e))

-- For every receiver id the topics that the server dispatches on are pairwise different, none of
-- them is a topic that it publishes on, and the version and radar topics are not the state topic.
pub new_topics-AreDistinct : (rid : Str) → AreDistinct (new_topics rid)
unfolding new_topics byte_at
new_topics-AreDistinct rid = record {
  read_log =
      λ e. absurd (omega (arith, ap (byte_at 1) (ends_equal rid (codes "/read") (codes "/log") e)));
  read_connection = λ e.
      absurd
        (omega (arith, ap (byte_at 1) (ends_equal rid (codes "/read") (codes "/connection") e)));
  log_connection = λ e.
      absurd
        (omega (arith, ap (byte_at 1) (ends_equal rid (codes "/log") (codes "/connection") e)));
  version_state = λ e. absurd (omega (arith, ap (byte_at 1) e));
  radar_params_state = λ e. absurd (omega (arith, behind_user rid 1 _ _ e));
  version_read = λ e. absurd (omega (arith, ap (byte_at 1) e));
  version_log = λ e. absurd (omega (arith, ap (byte_at 1) e));
  version_connection = λ e. absurd (omega (arith, ap (byte_at 1) e));
  radar_params_read = λ e. absurd (omega (arith, behind_user rid 1 _ _ e));
  radar_params_log = λ e. absurd (omega (arith, behind_user rid 1 _ _ e));
  radar_params_connection = λ e. absurd (omega (arith, behind_user rid 1 _ _ e));
  state_read = λ e. absurd (omega (arith, behind_user rid 2 _ _ e));
  state_log = λ e. absurd (omega (arith, behind_user rid 2 _ _ e));
  state_connection = λ e. absurd (omega (arith, behind_user rid 2 _ _ e));
}
