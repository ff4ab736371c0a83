-- ===== src/Auth/Registration.antt =====
-- A registration that fails, in src/modules/auth/auth.service.ts.
use step_fi_api.Common.{
  ◌≡◌, ◌≢◌, refl, sym, subst, ap, ◌∙◌, String, Option, none, some, eq_iff, arith, Run, returns,
  throws,
}
use step_fi_api.Checker.Types.{truthy}
use step_fi_api.Auth.Types.{
  AuthEnv, AuthError, RegisterRequest, UserProfile, Tokens, RepositoryReply, answered, raised,
  repository_failed,
}
use step_fi_api.Auth.Service.{
  generate_tokens, register, register_profile, register_tokens, roll_back, undo_avatar, undo_user,
  register_uploaded, some_url,
}

truthy-text : (x : String) → x ≢ "" → truthy (some x) ≡ some x
truthy-text x h = ground (arith, eq_iff x "")

module _ {S : Type 0} (env : AuthEnv S) (IsGone : String → S → Type 0)
    (HasNoUser : String → S → Type 0)
    (avatar_removed : (url : String) (s : S) → IsGone url (env.delete_avatar url s))
    (user_removed : (id : String) (s : S) → HasNoUser id (env.delete_user id s))
    (user_keeps_avatar : (id url : String) (s : S)
      → IsGone url s
      → IsGone url (env.delete_user id s)) where
  roll_back-gone :
      (url : String) (user : Option String) (s : S)
      → url ≢ ""
      → IsGone url (undo_user env (truthy user) (undo_avatar env (truthy (some url)) s))
  roll_back-gone url user s h = rw (truthy-text url h, undo_avatar) (go (truthy user))
    where
      go : (u : Option String) → IsGone url (undo_user env u (env.delete_avatar url s))
      go none = avatar_removed url s
      go (some id) = user_keeps_avatar id url (env.delete_avatar url s) (avatar_removed url s)

  tokens-rolled_back :
      (dto : RegisterRequest) (url : String) (user : UserProfile) (v u : S) (e : AuthError)
      → url ≢ ""
      → register_tokens env dto (some url) user v ≡ throws e u
      → IsGone url u × (user.id ≢ "" → HasNoUser user.id u)
  tokens-rolled_back dto url user v u e h f =
      go (generate_tokens env (some dto.wallet_address) none v) f
    where
      go :
          (q : Run S AuthError Tokens)
          → elim q as (λ _. Run S AuthError (UserProfile × Tokens)) [
            | returns tokens t ↦ returns (user, tokens) t
            | throws x t ↦ roll_back env (some url) (some user.id) x t
          ]
            ≡ throws e u
          → IsGone url u × (user.id ≢ "" → HasNoUser user.id u)
      go (returns tokens t) f' = cc
      go (throws x t) f' =
          let at : undo_user env (truthy (some user.id)) (undo_avatar env (truthy (some url)) t)
              ≡ u =
            cc in
          (
            subst (IsGone url) at (roll_back-gone url (some user.id) t h),
            λ n.
                subst (HasNoUser user.id) at
                  (rw (truthy-text user.id n, undo_user) (user_removed user.id _)),
          )

  -- A registration that throws after the picture was uploaded has deleted the picture, and if the
  -- profile had been created, that too: no user is left behind, whatever went wrong with the tokens.
  -- This takes deletions that take effect, of a user without bringing a picture back, and a
  -- repository whose picture URLs and user ids are not empty.
  pub register-rolled_back :
      (dto : RegisterRequest) (image url : String) (s t u : S) (e : AuthError)
      → env.upload_avatar dto.wallet_address image s ≡ (answered url, t)
      → url ≢ ""
      → register env dto (some image) s ≡ throws e u
      → IsGone url u
        × ((user : UserProfile) (v : S)
            → env.create_profile dto (some url) t ≡ (answered user, v)
            → user.id ≢ ""
            → HasNoUser user.id u)
  unfolding register
  register-rolled_back dto image url s t u e uploaded h failed =
      let opened : register env dto (some image) s ≡ register_profile env dto (some url) t =
        ap (λ q. register_uploaded env dto (some_url env q)) uploaded in
      go (env.create_profile dto (some url) t) refl (sym opened ∙ failed)
    where
      go :
          (q : RepositoryReply UserProfile × S)
          → env.create_profile dto (some url) t ≡ q
          → elim q.0 [
            | answered user ↦ register_tokens env dto (some url) user q.1
            | raised message ↦ roll_back env (some url) none (repository_failed message) q.1
          ]
            ≡ throws e u
          → IsGone url u
            × ((user : UserProfile) (v : S)
                → env.create_profile dto (some url) t ≡ (answered user, v)
                → user.id ≢ ""
                → HasNoUser user.id u)
      go (raised message, v) c f = (
        let at : undo_user env none (undo_avatar env (truthy (some url)) v) ≡ u = cc in
            subst (IsGone url) at (roll_back-gone url none v h),
        λ user w c' n. cc,
      )
      go (answered user, v) c f =
          let (picture, account) = tokens-rolled_back dto url user v u e h f in
          (
            picture,
            λ other w c' n.
                let same : user ≡ other = cc in
                subst (λ x. HasNoUser x.id u) same
                  (account (λ z. n (sym (ap (λ x. x.id) same) ∙ z))),
          )
