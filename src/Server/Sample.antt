-- ===== src/Server/Sample.antt =====
-- An app, requests to it and what they find outside, for runs.
use firego.Base.{true, false, none, some, [], ◌∷◌, ◌++◌, Bytes, codes}
use firego.Json.{end, absent, str, written}
use firego.Jwt.Sample.{sample}
use firego.Rules.Tree.{RuleNode, node, no_children}
use firego.Auth.Service.{Service, register, issue_token}
use firego.Auth.Sample.{plain, draw, secret, start, email, password, ann}
use firego.Storage.Store.{absent as no_meta, copied, meta_saved, file_removed}
use firego.Realtime.Hub.{Hub}
use firego.Apps.Manager.{Info, App}
use firego.Server.Http.{Request, Outside}
use firego.Server.Database.{bearer}

abbrev pub info : Info
info = record { id = codes "shop"; name = codes "Shop"; api_key = codes "00"; created_at = 5 }

abbrev pub signed_in_only : RuleNode
signed_in_only = node (codes "true") (codes "auth != null") no_children

abbrev pub app_with : Service → RuleNode → Hub → App
app_with auth root hub = record {
  info = info;
  auth = auth;
  db = record { root = end; file = absent; hub = some hub };
  store = record { meta = []; objects = []; meta_file = no_meta };
  rules = record { root = some root; file = absent };
  remote_config = record { params = some end; file = absent };
}

abbrev pub blank : Request
blank = record {
  app_id = codes "shop";
  path = [];
  authorization = [];
  x_admin_key = [];
  x_forwarded_for = [];
  x_forwarded_proto = [];
  content_type = [];
  remote_addr = codes "1.2.3.4:80";
  host = codes "h";
  tls = false;
  prefix = [];
  body = none;
  upload = [];
}

abbrev pub outside : Outside
outside = record {
  now = 6000000000;
  milli = 6000;
  random = [];
  draw = draw;
  key_bytes = 0xAB ∷ [];
  made = λ id. true;
  left = none;
  disk = true;
  write = written;
  copy = copied;
  save = meta_saved;
  removal = file_removed;
  read_all = true;
}

abbrev pub token : Bytes
token = issue_token sample plain ann draw 5000000000 secret

-- A PUT of ann, who has registered.
abbrev pub put_request : Request
put_request = record blank {
  path = codes "posts/p1";
  authorization = bearer ++ token;
  body = some (str (codes "hi"));
}

abbrev pub with_ann : Service
with_ann = (register sample plain email password draw 5000000000 true start).1
