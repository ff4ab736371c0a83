-- ===== src/Vendors/Accounts.antt =====
-- The registration of vendors and the creation of their API keys, in
-- src/modules/vendors/vendors.service.ts. The database sets what a row does not name.
use Prim.Native.String.{◌++◌, slice}
use step_fi_api.Common.{
  String, List, Option, Act, returns, throws, ◌>>=◌, ◌>>◌, done, read, or_throw, call,
}
use step_fi_api.Checker.Types.{truthy}
use step_fi_api.Vendors.{
  VendorRow, VendorError, FindReply, found, not_there, find_error, query_error, already_registered,
  vendor_create_failed, api_key_create_failed, VendorsEnv,
}
use step_fi_api.Vendors.Service.{require_vendor}

pub record RegisterVendorDto : Type 0 where
  pub name : String
  pub category : String
  pub country : String
  pub city : Option String
  pub website : Option String
  pub description : Option String

pub record CreateApiKeyDto : Type 0 where
  pub name : String
  pub permissions : List String
  pub expires_at : Option String

pub record NewApiKey : Type 0 where
  pub vendor_id : String
  pub name : String
  pub key_prefix : String
  pub key_hash : String
  pub permissions : List String
  pub expires_at : Option String

-- The id of the stored row and the key in full, which is shown this once.
pub record CreatedKey : Type 0 where
  pub id : String
  pub full_key : String

pub record AccountsEnv (S : Type 0) : Type 0 where
  -- the stored row, unverified; `none` for an error and for no row
  pub insert_vendor : String → RegisterVendorDto → S → Option VendorRow × S
  -- 32 random bytes in hexadecimal
  pub random_hex : S → String × S
  pub sha256 : String → String
  -- the id; `none` for an error
  pub insert_key : NewApiKey → S → Option String × S

abbrev pub api_key_prefix : String
api_key_prefix = "sfi_"

module _ {S : Type 0} (env : VendorsEnv S) (accounts : AccountsEnv S) where
  abbrev pub refuse_known : FindReply → Act S VendorError (Unit {0})
  refuse_known (found v) s = throws already_registered s
  refuse_known not_there s = returns tt s
  refuse_known find_error s = throws query_error s

  unfoldable pub register_vendor : String → RegisterVendorDto → Act S VendorError VendorRow
  register_vendor wallet dto = do
    reply ← read (env.find_by_wallet wallet)
    refuse_known reply
    stored ← call (accounts.insert_vendor wallet dto)
    or_throw stored vendor_create_failed

  unfoldable pub create_api_key : String → CreateApiKeyDto → Act S VendorError CreatedKey
  create_api_key wallet dto = do
    vendor ← require_vendor env wallet
    hex ← call accounts.random_hex
    let raw_key = api_key_prefix ++ hex
    stored ← call (
        accounts.insert_key (record {
          vendor_id = vendor.id;
          name = dto.name;
          key_prefix = slice raw_key 0 8;
          key_hash = accounts.sha256 raw_key;
          permissions = dto.permissions;
          expires_at = truthy dto.expires_at;
        }))
    id ← or_throw stored api_key_create_failed
    done (record { id = id; full_key = raw_key })
