-- ===== src/Backup/Command.antt =====
-- The command lines of backups and restores: pkg/controllers/br/command.go.
use matrixone_operator.Base.{
  ◌=s◌, if◌then◌else◌, ℕ, String, Bool, true, false, not, Option, none, some, List, [], ◌∷◌,
}
use Prim.Native.String.{◌++◌ as join}
use matrixone_operator.Base.Int.{pos}
use matrixone_operator.Base.Decimal.{show_int}
use matrixone_operator.Api.LogSet.{S3Provider, or_default}
use matrixone_operator.Backup.Text.{split_once}

abbrev pub meta_delimiter : String
meta_delimiter = "META_DELIMITER"

abbrev pub provider_aws : String
provider_aws = "aws"

abbrev pub provider_minio : String
provider_minio = "minio"

-- S3
pub record S3 : Type 0 where
  pub endpoint : String
  pub bucket : String
  pub path : String
  pub kind : String
  pub read_env_secret : Bool

abbrev pub is_some {ℓ} : {A : Type ℓ} → Option A → Bool
is_some none = false
is_some (some a) = true

-- The fields that syncJob fills in from the target, with GetProviderType.
unfoldable pub s3_of : S3Provider → S3
s3_of p =
    let (bucket, path) = split_once "/" p.path in
    record {
      endpoint = p.endpoint;
      bucket = bucket;
      path = path;
      kind = or_default provider_aws p.kind;
      read_env_secret = is_some p.secret;
    }

-- `strings.Builder`: the pieces that are written, in order.
unfoldable pub concat : List String → String
concat [] = ""
concat (p ∷ ps) = join p (concat ps)

abbrev pub when : Bool → String → String
when b p = if b then p else ""

-- BackupCommand.String
unfoldable pub backup_command : String → ℕ → S3 → String
backup_command host port s = concat (
    "/mo_br backup"
    ∷ join " --host=" host
    ∷ join " --port=" (show_int (pos port))
    ∷ " --user=$MO_USER"
    ∷ " --password=$MO_PASSWORD"
    ∷ " --backup_dir=s3"
    ∷ join " --endpoint=" s.endpoint
    ∷ join " --bucket=" s.bucket
    ∷ when (not (s.path =s "")) (join " --filepath=" s.path)
    ∷ when (s.kind =s provider_minio) " --is_minio"
    ∷ when s.read_env_secret " --access_key_id=$AWS_ACCESS_KEY_ID"
    ∷ when s.read_env_secret " --secret_access_key=$AWS_SECRET_ACCESS_KEY"
    ∷ join " && echo " (join meta_delimiter " && cat /mo_br.meta")
    ∷ [])

-- RestoreCommand.String
unfoldable pub restore_command : String → Bool → S3 → String
restore_command id read_source_env_secret s = concat (
    "echo $RAW_META > /mo_br.meta"
    ∷ " && sha256sum mo_br.meta | awk '{printf \"%s\",$1}' > mo_br.meta.sha256"
    ∷ " && /mo_br restore"
    ∷ join " " id
    ∷ " --restore_dir s3"
    ∷ when read_source_env_secret " --backup_access_key_id=$AWS_ACCESS_KEY_ID"
    ∷ when read_source_env_secret " --backup_secret_access_key=$AWS_SECRET_ACCESS_KEY"
    ∷ join " --restore_endpoint=" s.endpoint
    ∷ join " --restore_bucket=" s.bucket
    ∷ when (not (s.path =s "")) (join " --restore_filepath=" s.path)
    ∷ when s.read_env_secret " --restore_access_key_id=$RESTORE_ACCESS_KEY_ID"
    ∷ when s.read_env_secret " --restore_secret_access_key=$RESTORE_SECRET_ACCESS_KEY"
    ∷ when (s.kind =s provider_minio) " --restore_is_minio"
    ∷ [])
