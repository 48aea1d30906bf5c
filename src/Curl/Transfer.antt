-- ===== src/Curl/Transfer.antt =====
-- quic_proxy/proxy_quic/quic_proxy_curl.cc: the transfer that libcurl makes of the options of
-- `StartHttp`. Of the options of one kind the last counts, as libcurl documents.
use quic_proxy.Base.{ℕ, ◌==◌, not, Bool, true, false, List, [], ◌∷◌, Option, none, some}
use quic_proxy.Base.Bytes.{Bytes}
use quic_proxy.Curl.Start.{
  EasyOption, url, customrequest, httpheader, writefunction, writedata, headerfunction, headerdata,
  errorbuffer, private_data, followlocation, buffersize, upload, infilesize, readfunction, readdata,
}

-- What a transfer is to send, where, and which callbacks of the proxy it has.
pub record Transfer : Type 0 where
  pub to_url : Option Bytes
  pub method : Option Bytes
  pub headers : Option (List Bytes)
  -- The callback and its pointer, for the body, the head and the upload.
  pub writes : Bool × Bool
  pub heads : Bool × Bool
  pub reads : Bool × Bool
  -- CURLINFO_PRIVATE gives the proxy.
  pub knows_proxy : Bool
  pub uploads : Bool
  pub size : Option ℕ

abbrev pub no_options : Transfer
no_options = record {
  to_url = none;
  method = none;
  headers = none;
  writes = (false, false);
  heads = (false, false);
  reads = (false, false);
  knows_proxy = false;
  uploads = false;
  size = none;
}

unfoldable pub set_option : EasyOption → Transfer → Transfer
set_option (url u) t = record t { to_url = some u }
set_option (customrequest m) t = record t { method = some m }
set_option (httpheader list) t = record t { headers = some list }
set_option writefunction t = record t { writes = (true, t.writes.1) }
set_option writedata t = record t { writes = (t.writes.0, true) }
set_option headerfunction t = record t { heads = (true, t.heads.1) }
set_option headerdata t = record t { heads = (t.heads.0, true) }
set_option errorbuffer t = t
set_option private_data t = record t { knows_proxy = true }
set_option (followlocation n) t = t
set_option (buffersize n) t = t
set_option (upload n) t = record t { uploads = not (n == 0) }
set_option (infilesize n) t = record t { size = some n }
set_option readfunction t = record t { reads = (true, t.reads.1) }
set_option readdata t = record t { reads = (t.reads.0, true) }

unfoldable pub asked : Transfer → List EasyOption → Transfer
unfolding set_option
asked t [] = t
asked t (o ∷ os) = asked (set_option o t) os

-- A transfer without an upload, that calls the proxy back with the response.
abbrev pub download : Bytes → Bytes → List Bytes → Transfer
download u m list = record no_options {
  to_url = some u;
  method = some m;
  headers = some list;
  writes = (true, true);
  heads = (true, true);
  knows_proxy = true;
}
