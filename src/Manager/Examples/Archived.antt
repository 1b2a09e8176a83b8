-- ===== src/Manager/Examples/Archived.antt =====
-- A database of one file.
use mathlib.Core.Option
use ytsync.Base.{Option, refl, ◌⧺◌, String, true, none, some, [], ◌∷◌, ok}
use ytsync.Util.Archive.{ArchiveEnv}
use ytsync.Util.Archive.Keeps.{ArchiveLaws}
use ytsync.Manager.Storage.Database.{DatabaseEnv}
use ytsync.Manager.Examples.Stored.{set_same, Disk, set, set_other, services, laws, before}

abbrev dir : String
dir = "/home/lbry/.lbryum/lbc_mainnet/"

abbrev zipped : String → String
zipped text = text ⧺ " (zstd)"

abbrev press : Option String → Option String
press = Option.map zipped

abbrev archive : ArchiveEnv Disk
archive = record {
  create = services.create;
  open_file = λ p d. ok tt;
  stat = λ p d. ok tt;
  mkdir_all = λ p d. (ok tt, d);
  open_target = services.create;
  write_header = λ tarball p d. (ok tt, d);
  copy_into = λ tarball p d. (ok tt, record d { files = set tarball (d.files p) d.files });
  headers = λ tarball d. ([], none);
  copy_entry = λ tarball name p d. (ok tt, record d { files = set p (d.files tarball) d.files });
  new_encoder = λ p d. ok tt;
  new_decoder = λ p d. ok tt;
  encode = λ p q d. (ok tt, record d { files = set q (press (d.files p)) d.files });
  decode = λ p q d. (ok tt, record d { files = set q (d.files p) d.files });
  base = λ p. p;
  join = λ p q. p ⧺ q;
  trim_suffix = λ p q. p;
}

abbrev archive_laws : ArchiveLaws archive laws.file laws.object
archive_laws = record {
  create-only = laws.create-only;
  write_header-only = λ tarball p d. ((λ q h. refl), λ bucket key. refl);
  copy_into-only =
      λ tarball p d. ((λ q h. set_other tarball (d.files p) d.files q h), λ bucket key. refl);
  encode-only = λ p q d. ((λ f h. set_other q (press (d.files p)) d.files f h), λ bucket key. refl);
  zstd = zipped;
  encode-ok = λ p q d good. set_same q (press (d.files p)) d.files;
}

abbrev database : DatabaseEnv Disk
database = record {
  storage = services;
  archive = archive;
  glob = λ pattern_ d. ok ((dir ⧺ "blockchain.db") ∷ []);
  replace = λ text old new. dir;
  has_suffix = λ text end_. true;
  join_lines = λ lines. "";
}

abbrev file : String
file = "/home/lbry/.lbryum/lbc_mainnet/blockchain.db"

abbrev disk : Disk
disk = record before { files = set file (some "blocks") before.files }
