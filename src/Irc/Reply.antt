-- ===== src/Irc/Reply.antt =====
-- The enumeration `Reply` of irc/irc_client.hpp: the numeric replies of the protocol.
use boost_irc.Base.{
  ℕ, ◌==◌, ◌≡◌, refl, sym, ap, ◌∙◌, Option, some, none, List, [], ◌∷◌, if◌then◌else◌,
}

pub data Reply : Type 0 where
  rpl_welcome rpl_yourhost rpl_created rpl_myinfo rpl_bounce rpl_tracelink rpl_traceconnecting :
      Reply
  rpl_tracehandshake rpl_traceunknown rpl_traceoperator rpl_traceuser rpl_traceserver : Reply
  rpl_traceservice rpl_tracenewtype rpl_traceclass rpl_tracereconnect rpl_statslinkinfo : Reply
  rpl_statscommands rpl_statscline rpl_statsnline rpl_statsiline rpl_statskline rpl_statsqline :
      Reply
  rpl_statsyline rpl_endofstats rpl_umodeis rpl_serviceinfo rpl_endofservices rpl_service : Reply
  rpl_servlist rpl_servlistend rpl_statsvline rpl_statslline rpl_statsuptime rpl_statsoline : Reply
  rpl_statshline rpl_statssline rpl_statsping rpl_statsbline rpl_statsdline rpl_luserclient : Reply
  rpl_luserop rpl_luserunknown rpl_luserchannels rpl_luserme rpl_adminme rpl_adminloc1 : Reply
  rpl_adminloc2 rpl_adminemail rpl_tracelog rpl_traceend rpl_tryagain rpl_none rpl_away : Reply
  rpl_userhost rpl_ison rpl_unaway rpl_nowaway rpl_whoisuser rpl_whoisserver rpl_whoisoperator :
      Reply
  rpl_whowasuser rpl_endofwho rpl_whoischanop rpl_whoisidle rpl_endofwhois rpl_whoischannels : Reply
  rpl_liststart rpl_list rpl_listend rpl_channelmodeis rpl_uniqopis rpl_notopic rpl_topic : Reply
  rpl_inviting rpl_summoning rpl_invitelist rpl_endofinvitelist rpl_exceptlist : Reply
  rpl_endofexceptlist rpl_version rpl_whoreply rpl_namreply rpl_killdone rpl_closing : Reply
  rpl_closeend rpl_links rpl_endoflinks rpl_endofnames rpl_banlist rpl_endofbanlist : Reply
  rpl_endofwhowas rpl_info rpl_motd rpl_infostart rpl_endofinfo rpl_motdstart rpl_endofmotd : Reply
  rpl_youreoper rpl_rehashing rpl_youreservice rpl_myportis rpl_time rpl_usersstart rpl_users :
      Reply
  rpl_endofusers rpl_nousers err_nosuchnick err_nosuchserver err_nosuchchannel : Reply
  err_cannotsendtochan err_toomanychannels err_wasnosuchnick err_toomanytargets : Reply
  err_nosuchservice err_noorigin err_norecipient err_notexttosend err_notoplevel : Reply
  err_wildtoplevel err_badmask err_unknowncommand err_nomotd err_noadmininfo err_fileerror : Reply
  err_nonicknamegiven err_erroneusnickname err_nicknameinuse err_nickcollision : Reply
  err_unavailresource err_usernotinchannel err_notonchannel err_useronchannel err_nologin : Reply
  err_summondisabled err_usersdisabled err_notregistered err_needmoreparams : Reply
  err_alreadyregistred err_nopermforhost err_passwdmismatch err_yourebannedcreep : Reply
  err_youwillbebanned err_keyset err_channelisfull err_unknownmode err_inviteonlychan : Reply
  err_bannedfromchan err_badchannelkey err_badchanmask err_nochanmodes err_banlistfull : Reply
  err_noprivileges err_chanoprivsneeded err_cantkillserver err_restricted err_uniqopprivsneeded :
      Reply
  err_nooperhost err_noservicehost err_umodeunknownflag err_usersdontmatch : Reply

-- The number of an enumerator.
unfoldable pub number_of : Reply → ℕ
number_of rpl_welcome = 1
number_of rpl_yourhost = 2
number_of rpl_created = 3
number_of rpl_myinfo = 4
number_of rpl_bounce = 5
number_of rpl_tracelink = 200
number_of rpl_traceconnecting = 201
number_of rpl_tracehandshake = 202
number_of rpl_traceunknown = 203
number_of rpl_traceoperator = 204
number_of rpl_traceuser = 205
number_of rpl_traceserver = 206
number_of rpl_traceservice = 207
number_of rpl_tracenewtype = 208
number_of rpl_traceclass = 209
number_of rpl_tracereconnect = 210
number_of rpl_statslinkinfo = 211
number_of rpl_statscommands = 212
number_of rpl_statscline = 213
number_of rpl_statsnline = 214
number_of rpl_statsiline = 215
number_of rpl_statskline = 216
number_of rpl_statsqline = 217
number_of rpl_statsyline = 218
number_of rpl_endofstats = 219
number_of rpl_umodeis = 221
number_of rpl_serviceinfo = 231
number_of rpl_endofservices = 232
number_of rpl_service = 233
number_of rpl_servlist = 234
number_of rpl_servlistend = 235
number_of rpl_statsvline = 240
number_of rpl_statslline = 241
number_of rpl_statsuptime = 242
number_of rpl_statsoline = 243
number_of rpl_statshline = 244
number_of rpl_statssline = 244
number_of rpl_statsping = 246
number_of rpl_statsbline = 247
number_of rpl_statsdline = 250
number_of rpl_luserclient = 251
number_of rpl_luserop = 252
number_of rpl_luserunknown = 253
number_of rpl_luserchannels = 254
number_of rpl_luserme = 255
number_of rpl_adminme = 256
number_of rpl_adminloc1 = 257
number_of rpl_adminloc2 = 258
number_of rpl_adminemail = 259
number_of rpl_tracelog = 261
number_of rpl_traceend = 262
number_of rpl_tryagain = 263
number_of rpl_none = 300
number_of rpl_away = 301
number_of rpl_userhost = 302
number_of rpl_ison = 303
number_of rpl_unaway = 305
number_of rpl_nowaway = 306
number_of rpl_whoisuser = 311
number_of rpl_whoisserver = 312
number_of rpl_whoisoperator = 313
number_of rpl_whowasuser = 314
number_of rpl_endofwho = 315
number_of rpl_whoischanop = 316
number_of rpl_whoisidle = 317
number_of rpl_endofwhois = 318
number_of rpl_whoischannels = 319
number_of rpl_liststart = 321
number_of rpl_list = 322
number_of rpl_listend = 323
number_of rpl_channelmodeis = 324
number_of rpl_uniqopis = 325
number_of rpl_notopic = 331
number_of rpl_topic = 332
number_of rpl_inviting = 341
number_of rpl_summoning = 342
number_of rpl_invitelist = 346
number_of rpl_endofinvitelist = 347
number_of rpl_exceptlist = 348
number_of rpl_endofexceptlist = 349
number_of rpl_version = 351
number_of rpl_whoreply = 352
number_of rpl_namreply = 353
number_of rpl_killdone = 361
number_of rpl_closing = 362
number_of rpl_closeend = 363
number_of rpl_links = 364
number_of rpl_endoflinks = 365
number_of rpl_endofnames = 366
number_of rpl_banlist = 367
number_of rpl_endofbanlist = 368
number_of rpl_endofwhowas = 369
number_of rpl_info = 371
number_of rpl_motd = 372
number_of rpl_infostart = 373
number_of rpl_endofinfo = 374
number_of rpl_motdstart = 375
number_of rpl_endofmotd = 376
number_of rpl_youreoper = 381
number_of rpl_rehashing = 382
number_of rpl_youreservice = 383
number_of rpl_myportis = 384
number_of rpl_time = 391
number_of rpl_usersstart = 392
number_of rpl_users = 393
number_of rpl_endofusers = 394
number_of rpl_nousers = 395
number_of err_nosuchnick = 401
number_of err_nosuchserver = 402
number_of err_nosuchchannel = 403
number_of err_cannotsendtochan = 404
number_of err_toomanychannels = 405
number_of err_wasnosuchnick = 406
number_of err_toomanytargets = 407
number_of err_nosuchservice = 408
number_of err_noorigin = 409
number_of err_norecipient = 411
number_of err_notexttosend = 412
number_of err_notoplevel = 413
number_of err_wildtoplevel = 414
number_of err_badmask = 415
number_of err_unknowncommand = 421
number_of err_nomotd = 422
number_of err_noadmininfo = 423
number_of err_fileerror = 424
number_of err_nonicknamegiven = 431
number_of err_erroneusnickname = 432
number_of err_nicknameinuse = 433
number_of err_nickcollision = 436
number_of err_unavailresource = 437
number_of err_usernotinchannel = 441
number_of err_notonchannel = 442
number_of err_useronchannel = 443
number_of err_nologin = 444
number_of err_summondisabled = 445
number_of err_usersdisabled = 446
number_of err_notregistered = 451
number_of err_needmoreparams = 461
number_of err_alreadyregistred = 462
number_of err_nopermforhost = 463
number_of err_passwdmismatch = 464
number_of err_yourebannedcreep = 465
number_of err_youwillbebanned = 466
number_of err_keyset = 467
number_of err_channelisfull = 471
number_of err_unknownmode = 472
number_of err_inviteonlychan = 473
number_of err_bannedfromchan = 474
number_of err_badchannelkey = 475
number_of err_badchanmask = 476
number_of err_nochanmodes = 477
number_of err_banlistfull = 478
number_of err_noprivileges = 481
number_of err_chanoprivsneeded = 482
number_of err_cantkillserver = 483
number_of err_restricted = 484
number_of err_uniqopprivsneeded = 485
number_of err_nooperhost = 491
number_of err_noservicehost = 492
number_of err_umodeunknownflag = 501
number_of err_usersdontmatch = 502

-- The enumerators in the order of their declaration.
abbrev pub all_replies : List Reply
all_replies =
    rpl_welcome ∷ rpl_yourhost ∷ rpl_created ∷ rpl_myinfo ∷ rpl_bounce ∷ rpl_tracelink
    ∷ rpl_traceconnecting ∷ rpl_tracehandshake ∷ rpl_traceunknown ∷ rpl_traceoperator
    ∷ rpl_traceuser ∷ rpl_traceserver ∷ rpl_traceservice ∷ rpl_tracenewtype ∷ rpl_traceclass
    ∷ rpl_tracereconnect ∷ rpl_statslinkinfo ∷ rpl_statscommands ∷ rpl_statscline ∷ rpl_statsnline
    ∷ rpl_statsiline ∷ rpl_statskline ∷ rpl_statsqline ∷ rpl_statsyline ∷ rpl_endofstats
    ∷ rpl_umodeis ∷ rpl_serviceinfo ∷ rpl_endofservices ∷ rpl_service ∷ rpl_servlist
    ∷ rpl_servlistend ∷ rpl_statsvline ∷ rpl_statslline ∷ rpl_statsuptime ∷ rpl_statsoline
    ∷ rpl_statshline ∷ rpl_statssline ∷ rpl_statsping ∷ rpl_statsbline ∷ rpl_statsdline
    ∷ rpl_luserclient ∷ rpl_luserop ∷ rpl_luserunknown ∷ rpl_luserchannels ∷ rpl_luserme
    ∷ rpl_adminme ∷ rpl_adminloc1 ∷ rpl_adminloc2 ∷ rpl_adminemail ∷ rpl_tracelog ∷ rpl_traceend
    ∷ rpl_tryagain ∷ rpl_none ∷ rpl_away ∷ rpl_userhost ∷ rpl_ison ∷ rpl_unaway ∷ rpl_nowaway
    ∷ rpl_whoisuser ∷ rpl_whoisserver ∷ rpl_whoisoperator ∷ rpl_whowasuser ∷ rpl_endofwho
    ∷ rpl_whoischanop ∷ rpl_whoisidle ∷ rpl_endofwhois ∷ rpl_whoischannels ∷ rpl_liststart
    ∷ rpl_list ∷ rpl_listend ∷ rpl_channelmodeis ∷ rpl_uniqopis ∷ rpl_notopic ∷ rpl_topic
    ∷ rpl_inviting ∷ rpl_summoning ∷ rpl_invitelist ∷ rpl_endofinvitelist ∷ rpl_exceptlist
    ∷ rpl_endofexceptlist ∷ rpl_version ∷ rpl_whoreply ∷ rpl_namreply ∷ rpl_killdone ∷ rpl_closing
    ∷ rpl_closeend ∷ rpl_links ∷ rpl_endoflinks ∷ rpl_endofnames ∷ rpl_banlist ∷ rpl_endofbanlist
    ∷ rpl_endofwhowas ∷ rpl_info ∷ rpl_motd ∷ rpl_infostart ∷ rpl_endofinfo ∷ rpl_motdstart
    ∷ rpl_endofmotd ∷ rpl_youreoper ∷ rpl_rehashing ∷ rpl_youreservice ∷ rpl_myportis ∷ rpl_time
    ∷ rpl_usersstart ∷ rpl_users ∷ rpl_endofusers ∷ rpl_nousers ∷ err_nosuchnick ∷ err_nosuchserver
    ∷ err_nosuchchannel ∷ err_cannotsendtochan ∷ err_toomanychannels ∷ err_wasnosuchnick
    ∷ err_toomanytargets ∷ err_nosuchservice ∷ err_noorigin ∷ err_norecipient ∷ err_notexttosend
    ∷ err_notoplevel ∷ err_wildtoplevel ∷ err_badmask ∷ err_unknowncommand ∷ err_nomotd
    ∷ err_noadmininfo ∷ err_fileerror ∷ err_nonicknamegiven ∷ err_erroneusnickname
    ∷ err_nicknameinuse ∷ err_nickcollision ∷ err_unavailresource ∷ err_usernotinchannel
    ∷ err_notonchannel ∷ err_useronchannel ∷ err_nologin ∷ err_summondisabled ∷ err_usersdisabled
    ∷ err_notregistered ∷ err_needmoreparams ∷ err_alreadyregistred ∷ err_nopermforhost
    ∷ err_passwdmismatch ∷ err_yourebannedcreep ∷ err_youwillbebanned ∷ err_keyset
    ∷ err_channelisfull ∷ err_unknownmode ∷ err_inviteonlychan ∷ err_bannedfromchan
    ∷ err_badchannelkey ∷ err_badchanmask ∷ err_nochanmodes ∷ err_banlistfull ∷ err_noprivileges
    ∷ err_chanoprivsneeded ∷ err_cantkillserver ∷ err_restricted ∷ err_uniqopprivsneeded
    ∷ err_nooperhost ∷ err_noservicehost ∷ err_umodeunknownflag ∷ err_usersdontmatch ∷ []

-- The first enumerator of a list with a number.
find_number : ℕ → List Reply → Option Reply
unfolding number_of
find_number n [] = none
find_number n (r ∷ rs) = if number_of r == n then some r else find_number n rs

-- 244 is declared twice: the two enumerators are one value of the program.
abbrev pub canonical : Reply → Reply
canonical rpl_statssline = rpl_statshline
canonical r = r

find_number-number_of : (r : Reply) → find_number (number_of r) all_replies ≡ some (canonical r)
unfolding find_number
find_number-number_of rpl_statssline = refl
find_number-number_of _ = refl

some_injective : {r s : Reply} → some r ≡ some s → r ≡ s
some_injective e = cc

-- No two enumerators have one number, but for RPL_STATSHLINE and RPL_STATSSLINE.
pub number_of_injective : (r s : Reply) → number_of r ≡ number_of s → canonical r ≡ canonical s
number_of_injective r s e = some_injective (
    sym (find_number-number_of r) ∙ ap (λ n. find_number n all_replies) e ∙ find_number-number_of s)
