-- ===== src/Cal/Tests.antt =====
-- cal.c with one client: the theorem and some runs.
use iocsh_utilities.Base.{
  ◌≡◌, refl, true, false, none, some, [], ◌∷◌, ◌++◌, codes, replicate, text_eq, arith,
}
use iocsh_utilities.Threads.Affinity.{decimal}
use iocsh_utilities.Cal.{
  Client, tcp, Channel, in_service, before_dot, host_text, front_text, client_ref, cal,
}
use iocsh_utilities.Cal.Room.{client_ref-fits}

abbrev client : Client
client = record {
  tid = codes "0x7f00";
  pid = 77;
  minor_version = 13;
  proto = tcp;
  user = some (codes "me");
  host = some (codes "pc.net");
  port = 5064;
  address = [];
}

client_ref-fits_example :
    client_ref 4 0 client
    ≡ some (front_text 4 0 client ++ (before_dot (codes "pc.net") ++ (b':' ∷ decimal 5064)))
unfolding before_dot
client_ref-fits_example =
    client_ref-fits 4 0 client (codes "pc.net") (omega arith) (omega arith) (omega arith)
      (omega arith) (omega arith) refl (omega arith)

abbrev channel : Channel
channel = record {
  record_name = some (codes "rec");
  field_name = codes "VAL";
  state = in_service;
  can_put = true;
  can_get = true;
  is_monitored = true;
  is_putting = false;
}

listed :
    cal 4 text_eq (some (codes "me")) 3 ((client, channel ∷ []) ∷ [])
    ≡ some (codes "[active]V4.13 TCP:me@pc:5064 wm==> rec.VAL" ∷ [])
unfolding cal decimal
listed = refl

not_listed : cal 4 text_eq (some (codes "you")) 3 ((client, channel ∷ []) ∷ []) ≡ some []
unfolding cal decimal
not_listed = refl

-- A host whose name has no dot within 100 bytes is written behind the end of the buffer.
long_host :
    client_ref 4 0 (record {
      tid = [];
      pid = 0;
      minor_version = 13;
      proto = tcp;
      user = some (replicate 36 b'u');
      host = some (replicate 63 b'h');
      port = 5064;
      address = [];
    })
    ≡ none
unfolding client_ref front_text host_text before_dot decimal
long_host = refl
