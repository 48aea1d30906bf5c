-- ===== src/Lib.antt =====
-- quic_proxy: a reverse proxy that takes QUIC requests and fetches the answers over HTTP from a
-- backend with libcurl. The code is in proxy_quic/, above the QUIC library of Chromium, libcurl and
-- the kernel, none of which is in the repository.
--
-- The parts and how they interact. A server process reads datagrams and hands them to sessions; each
-- request of a client is a stream (quic_proxy_stream.cc). When a request is complete the base class
-- calls the backend (quic_proxy_backend.cc), which makes a proxy object for it (quic_proxy_curl.cc)
-- and gives its handle to libcurl. libcurl calls the proxy back with the lines of the response's
-- head and the chunks of its body, which go to the stream, and asks it for the request's body. The
-- backend arms a timer for libcurl (quic_curl_timer.cc) and collects the transfers that are done.
-- The first process (quic_proxy_server_bin.cc) forks a worker for each CPU and replaces those that end;
-- a worker makes a backend and a server (quic_proxy_server.cc), opens the socket, and waits for events.
-- Datagrams to the clients go through a packet writer (quic_proxy_packet_writer.cc) that holds up to
-- 32 of them; a second timer flushes it (sendmmsgtimer.cc).
--
-- The files.
--   Base, Base/...   what the models share: tests, lists, integers of the C++ code, byte strings.
--   Socket           interface: QuicLinuxSocketUtils::WriteMultiplePackets, by laws. `Socket/Sample`
--                    is an instance.
--   Writer           QuicProxyPacketWriter: WritePacket is `write_packet`, Flush is `flush`. Below
--                    it: Slots (validity of the cache), Queue (the specification), Refine, History,
--                    Conserve, Outcomes.
--   Timer            SendMMsgTimer, QuicCurlTimer, QuicProxyBackend::CurlMultiTimerCB; below it
--                    Arming, and Life (from the constructor to the destructor).
--   HeaderBlock      interface: SpdyHeaderBlock, QuicTextUtils, HttpUtil. `HeaderBlock/Sample` is an
--                    instance.
--   Curl             QuicProxyCurl: its callbacks; Curl/Start is InitializeProxyCurl and StartHttp.
--                    Below it: Lines and Head (the response's head), Download (its body), Response
--                    (both), Upload (the request's body), Request (the request's headers), Transfer (what
--                    libcurl makes of the options), Keeps.
--   Stream           QuicProxyStream.
--   Backend          QuicProxyBackend: its tables and CheckCurlMultiInfo; Backend/Requests is
--                    FetchResponseFromBackend and CreateProxyCurl, Backend/Events the sequences of
--                    calls. Below it: Linked (what holds of the pointers), Unlink and Steps (single
--                    changes), Close, Done, Joined, Fetch, Watched, Life, Unstarted.
--                    Backend/Sockets is CurlSockCB, Backend/Ready the OnEvent functions of the proxy
--                    and of QuicCurlTimer. Backend/Handles adds the handles in multi_curl_ (Tables,
--                    Safe, Fetched), the destructors of proxies (Cleaned), and the sequences of
--                    calls with both (Events, Unmoved, Life), and where they are undefined (Hazard).
--                    Backend/Unmoved and Backend/Quiet are
--                    what most calls leave as it is, and Backend/Book is the abstract view of the
--                    tables, a book of transfers (Cuts, Ends, Refine). Backend/Loop has what the event
--                    loop has registered for each descriptor, next to what libcurl uses (Kept, Agrees,
--                    Socket, Stays, Life).
--   Reader           QuicProxyPacketReader: ReadAndDispatchPackets is `read_and_dispatch_packets`; and
--                    the read loop of QuicProxyServer::OnEvent, `read_loop`. Below it: Batch, Drain.
--   Server           QuicProxyServer: CreateUDPSocketAndListen, CreateWriter, Shutdown. Below it:
--                    Listen; Config is the constructor with Initialize; Events is OnEvent over an
--                    interface for the dispatcher, with Answer and Chlos.
--   Processes        main of quic_proxy_server_bin.cc: the loops around fork and wait as `Step` on a
--                    table of processes. Below it: Table, Manned (what holds of all processes),
--                    Population, Recovery, Spinner; Worker is worker() with InitializeCURLM, and
--                    Worker/Serving what it comes to.
--   Session          QuicProxySession, QuicProxyDispatcher::CreateQuicSession, and get_peer_ip of
--                    their streams; below it Create, Serve (a request from session to transfer), and
--                    Site (all sessions with the backend that they share).
--   The files named Tests run the definitions on concrete data, and those named Sample hold it.
--
-- State and errors. An operation takes the state and returns the new one. An access out of bounds,
-- through a null pointer or to a freed object gives `none`. Addresses of objects, libcurl's handles
-- and addresses of the network are numbers; a size_t is a number below 2 ^ 64, with its wrap-around
-- written out; an int or a long is an integer. What a call asks of the kernel or of libcurl is a
-- value: a list of timer calls, of options, of calls of the stream.
--
-- Processes run interleaved: a step of the table of processes is one step of any of them, with any
-- answer that fork and wait may give.
--
-- Bounds and fuel. `read_loop` runs on fuel, also inside `on_event`: the code calls again as long as a
-- batch of 16 is full, so that fuel for a sixteenth of the datagrams that will arrive, and one call
-- more, is enough. `recalled` counts the calls of OnEvent. The other loops run over lists: the
-- request's headers, libcurl's messages, the slots of a batch.
--
-- Not modelled: logging and debug checks, the bodies of the base classes and of libcurl, an
-- allocation that fails (but for `curl_easy_init`), destructors but for those of a stream, a
-- proxy, a timer and the backend (those of the server's other members are the QUIC library's), signals
-- that end another process than a worker, the crypto configuration, and the command line: the parsing of
-- flags, daemon(), and the test mode, in which main runs one worker.
pub mod Base
pub mod Socket
pub mod Writer
pub mod Timer
pub mod HeaderBlock
pub mod Curl
pub mod Stream
pub mod Backend
pub mod Reader
pub mod Server
pub mod Processes
pub mod Session
