-- ===== src/Auth/Saving.antt =====
-- `SaveSession` as a whole: its outcome, and two of them that overlap.
use card.Prelude.{
  ℕ, ◌≡◌, refl, sym, ap, subst, ◌∙◌, ◌≢◌, ◌⊎◌, inl, inr, List, [], none, some, Bool, true, false,
  Option-cases,
}
use card.Prelude.Text.{Str}
use card.Auth.Model.{Session, internal, Result, ok, err, ◌>>=◌, continue-ok, Run}
use card.Auth.Stores.{Answer, missing, failed, found, Command, Redis, IsRedis, apply_all}
use card.Auth.Repository.{
  Codec, RoundTrips, session_key, account_session_key, save_commands, current_session, save_over,
  save_session, done,
}
use card.Auth.Sessions.{
  View, IsLive, IsSingle, IsCurrent, saved-IsSingle, saved_self, saved_account, saved_old,
  saved_other, saved_empty, none_ne_some,
}

pub Answer-cases : (a : Answer) → (a ≡ missing) ⊎ (a ≡ failed) ⊎ ((v : Str) × (a ≡ found v))
Answer-cases missing = inl refl
Answer-cases failed = inr (inl refl)
Answer-cases (found v) = inr (inr (v, refl))

pub done-world : {W : Type 0} (r : W × Bool) → (done r).0 ≡ r.0
done-world (w, true) = refl
done-world (w, false) = refl

pub done-ok : {W : Type 0} (r : W × Bool) (w : W) → done r ≡ (w, ok tt) → (r.0 ≡ w) × (r.1 ≡ true)
done-ok (v, true) w e = (ap (λ x. x.0) e, refl)
done-ok (v, false) w e = cc

module _ {W : Type 0} (redis : Redis W) (value_at : W → View) (codec : Codec Session) where
  save_over-IsSingle :
      (w : W) (s : Session) (ttl : ℕ) (old : Str)
      → IsRedis redis value_at
      → RoundTrips codec
      → s.session_id ≢ []
      → IsCurrent codec (value_at w) s.account_id old
      → IsSingle codec (value_at w)
      → IsSingle codec (value_at (save_over redis codec s ttl old w).0)
  unfolding save_over
  save_over-IsSingle w s ttl old laws trips filled cur single =
      elim (Option-cases (codec.marshal s)) [
        | inl e ↦ rw e single
        | inr (payload, e) ↦
            let cs : List Command = save_commands s old payload ttl in
            let saved : IsSingle codec (apply_all cs (value_at w)) =
              saved-IsSingle codec (value_at w) s old payload ttl trips e filled cur single in
            rw (e, done-world (redis.exec w cs))
              (elim (laws.exec_atomic w cs) [ inl same ↦ rw same single | inr all ↦ rw all saved ])
      ]

  -- Whether `SaveSession` fails or not, and wherever it fails, an account keeps one session at most.
  pub save_session-IsSingle :
      (w : W) (s : Session) (ttl : ℕ)
      → IsRedis redis value_at
      → RoundTrips codec
      → s.session_id ≢ []
      → IsSingle codec (value_at w)
      → IsSingle codec (value_at (save_session redis codec s ttl w).0)
  unfolding save_session current_session
  save_session-IsSingle w s ttl laws trips filled single =
      elim (Answer-cases (redis.get w (account_session_key s.account_id))) [
        | inl e ↦ rw e (
            save_over-IsSingle w s ttl [] laws trips filled
              (inr (laws.get_missing w (account_session_key s.account_id) e, refl)) single)
        | inr (inl e) ↦ rw e single
        | inr (inr (old, e)) ↦ rw e (
            save_over-IsSingle w s ttl old laws trips filled
              (inl (laws.get_found w (account_session_key s.account_id) old e)) single)
      ]

  -- What a `SaveSession` that returned no error left in Redis.
  pub record IsSaved (w : W) (s : Session) (w' : W) : Type 0 where
    pub live : IsLive codec (value_at w') s.session_id s
    pub entry : value_at w' (account_session_key s.account_id) ≡ some s.session_id
    pub replaced :
        (old : Str)
        → value_at w (account_session_key s.account_id) ≡ some old
        → old ≢ []
        → old ≢ s.session_id
        → value_at w' (session_key old) ≡ none
    pub others :
        (id : Str)
        → id ≢ s.session_id
        → value_at w (account_session_key s.account_id) ≢ some id
        → value_at w' (session_key id) ≡ value_at w (session_key id)

  replaced_old :
      (view : View) (s : Session) (old old' payload : Str) (ttl : ℕ)
      → IsCurrent codec view s.account_id old
      → view (account_session_key s.account_id) ≡ some old'
      → old' ≢ []
      → old' ≢ s.session_id
      → apply_all (save_commands s old payload ttl) view (session_key old') ≡ none
  replaced_old view s old old' payload ttl (inl e) at_account filled other =
      let same : old ≡ old' = cc in
      subst (λ o. apply_all (save_commands s o payload ttl) view (session_key old') ≡ none)
        (sym same) (saved_old codec view s old' payload ttl filled other)
  replaced_old view s old old' payload ttl (inr (e, _)) at_account filled other =
      absurd (none_ne_some (sym e ∙ at_account))

  untouched :
      (view : View) (s : Session) (old id payload : Str) (ttl : ℕ)
      → IsCurrent codec view s.account_id old
      → id ≢ s.session_id
      → view (account_session_key s.account_id) ≢ some id
      → apply_all (save_commands s old payload ttl) view (session_key id) ≡ view (session_key id)
  untouched view s old id payload ttl (inl e) new other =
      saved_other codec view s old payload ttl id new (λ k. other (e ∙ ap some (sym k)))
  untouched view s old id payload ttl (inr (_, empty)) new other =
      saved_empty codec view s old payload ttl id new empty

  save_over-view :
      (w w' : W) (s : Session) (ttl : ℕ) (old : Str)
      → IsRedis redis value_at
      → save_over redis codec s ttl old w ≡ (w', ok tt)
      → (payload : Str) × (codec.marshal s ≡ some payload)
        × (value_at w' ≡ apply_all (save_commands s old payload ttl) (value_at w))
  unfolding save_over
  save_over-view w w' s ttl old laws e = elim (Option-cases (codec.marshal s)) [
    | inl m ↦
        let e' : ◌≡◌ {A = W × Result (Unit {0})} (w, err internal) (w', ok tt) = rw m at e in cc
    | inr (payload, m) ↦
        let cs : List Command = save_commands s old payload ttl in
        let e' : done (redis.exec w cs) ≡ (w', ok tt) = rw m at e in
        let (same, fine) = done-ok (redis.exec w cs) w' e' in
        (payload, m, ap value_at (sym same) ∙ laws.exec_done w cs fine)
  ]

  save_over-IsSaved :
      (w w' : W) (s : Session) (ttl : ℕ) (old : Str)
      → IsRedis redis value_at
      → RoundTrips codec
      → IsCurrent codec (value_at w) s.account_id old
      → save_over redis codec s ttl old w ≡ (w', ok tt)
      → IsSaved w s w'
  save_over-IsSaved w w' s ttl old laws trips cur e =
      let (payload, m, v) = save_over-view w w' s ttl old laws e in
      record {
        live = (payload, rw v (saved_self codec (value_at w) s old payload ttl), trips s payload m);
        entry = rw v (saved_account codec (value_at w) s old payload ttl);
        replaced = λ old' at_account some_text other.
            rw v (replaced_old (value_at w) s old old' payload ttl cur at_account some_text other);
        others = λ id new other. rw v (untouched (value_at w) s old id payload ttl cur new other);
      }

  -- With a Redis and a codec that keep their promises, a `SaveSession` that returns no error stores the
  -- session, makes it the current one of its account, removes the session that was the current one
  -- before, if that has another id which is not empty, and leaves all others.
  pub save_session-IsSaved :
      (w w' : W) (s : Session) (ttl : ℕ)
      → IsRedis redis value_at
      → RoundTrips codec
      → save_session redis codec s ttl w ≡ (w', ok tt)
      → IsSaved w s w'
  unfolding save_session current_session
  save_session-IsSaved w w' s ttl laws trips e =
      elim (Answer-cases (redis.get w (account_session_key s.account_id))) [
        | inl a ↦
            save_over-IsSaved w w' s ttl [] laws trips
              (inr (laws.get_missing w (account_session_key s.account_id) a, refl)) (rw a at e)
        | inr (inl a) ↦
            let e' : ◌≡◌ {A = W × Result (Unit {0})} (w, err internal) (w', ok tt) = rw a at e in cc
        | inr (inr (old, a)) ↦
            save_over-IsSaved w w' s ttl old laws trips
              (inl (laws.get_found w (account_session_key s.account_id) old a)) (rw a at e)
      ]

  IsCurrent-IsCurrent :
      (w u : W) (account_id old : Str)
      → IsRedis redis value_at
      → current_session redis account_id w ≡ (u, ok old)
      → (w ≡ u) × IsCurrent codec (value_at w) account_id old
  unfolding current_session
  IsCurrent-IsCurrent w u account_id old laws e =
      elim (Answer-cases (redis.get w (account_session_key account_id))) [
        | inl a ↦
            let e' : ◌≡◌ {A = W × Result Str} (w, ok []) (u, ok old) = rw a at e in
            (cc, inr (laws.get_missing w (account_session_key account_id) a, cc))
        | inr (inl a) ↦
            let e' : ◌≡◌ {A = W × Result Str} (w, err internal) (u, ok old) = rw a at e in cc
        | inr (inr (v, a)) ↦
            let e' : ◌≡◌ {A = W × Result Str} (w, ok v) (u, ok old) = rw a at e in
            let same : v ≡ old = cc in
            (cc, inl (laws.get_found w (account_session_key account_id) v a ∙ ap some same))
      ]

  second_spares :
      (view : View) (s t : Session) (old' : Str)
      → s.account_id ≡ t.account_id
      → s.session_id ≢ []
      → view (account_session_key s.account_id) ≢ some s.session_id
      → IsCurrent codec view t.account_id old'
      → s.session_id ≢ old'
  second_spares view s t old' account filled new (inl cur) e =
      new (ap (λ a. view (account_session_key a)) account ∙ cur ∙ ap some (sym e))
  second_spares view s t old' account filled new (inr (_, empty)) e = filled (e ∙ empty)

  both_stay :
      (w u v : W) (s t : Session) (ttl : ℕ) (old old' : Str)
      → IsRedis redis value_at
      → RoundTrips codec
      → s.session_id ≢ t.session_id
      → s.session_id ≢ old'
      → save_over redis codec s ttl old w ≡ (u, ok tt)
      → save_over redis codec t ttl old' u ≡ (v, ok tt)
      → IsLive codec (value_at v) s.session_id s × IsLive codec (value_at v) t.session_id t
  both_stay w u v s t ttl old old' laws trips apart spared first second =
      let (p, m, a) = save_over-view w u s ttl old laws first in
      let (q, n, b) = save_over-view u v t ttl old' laws second in
      let kept : value_at v (session_key s.session_id) ≡ value_at u (session_key s.session_id) =
        rw b (saved_other codec (value_at u) t old' q ttl s.session_id apart spared) in
      let self : value_at u (session_key s.session_id) ≡ some p =
        rw a (saved_self codec (value_at w) s old p ttl) in
      (
        (p, kept ∙ self, trips s p m),
        (q, rw b (saved_self codec (value_at u) t old' q ttl), trips t q n),
      )

  -- Two `SaveSession` that both read the current session of their account before either writes.
  unfoldable pub overlapping_saves : Session → Session → ℕ → Run W (Unit {0})
  overlapping_saves s t ttl = do
    old ← current_session redis s.account_id
    old' ← current_session redis t.account_id
    _ ← save_over redis codec s ttl old
    save_over redis codec t ttl old'

  -- With a Redis and a codec that keep their promises, if two saves of one account overlap and neither
  -- returns an error, the sessions of both can be read afterwards, where the two ids differ and the
  -- first is neither empty nor the one that the account had.
  pub overlapping_saves-both :
      (w v : W) (s t : Session) (ttl : ℕ)
      → IsRedis redis value_at
      → RoundTrips codec
      → s.account_id ≡ t.account_id
      → s.session_id ≢ t.session_id
      → s.session_id ≢ []
      → value_at w (account_session_key s.account_id) ≢ some s.session_id
      → overlapping_saves s t ttl w ≡ (v, ok tt)
      → IsLive codec (value_at v) s.session_id s × IsLive codec (value_at v) t.session_id t
  unfolding overlapping_saves
  overlapping_saves-both w v s t ttl laws trips account apart filled new e =
      let (w1, old, e1, f1) = continue-ok (current_session redis s.account_id w) _ v tt e in
      let (same, _) = IsCurrent-IsCurrent w w1 s.account_id old laws e1 in
      let (w2, old', e2, f2) = continue-ok (current_session redis t.account_id w1) _ v tt f1 in
      let (same', cur) = IsCurrent-IsCurrent w1 w2 t.account_id old' laws e2 in
      let cur' : IsCurrent codec (value_at w) t.account_id old' =
        subst (λ x. IsCurrent codec (value_at x) t.account_id old') (sym same) cur in
      let (w3, u, e3, f3) = continue-ok (save_over redis codec s ttl old w2) _ v tt f2 in
      both_stay w2 w3 v s t ttl old old' laws trips apart
        (second_spares (value_at w) s t old' account filled new cur') e3 f3
